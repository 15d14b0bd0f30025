-- ===== src/Json/Integer.antt =====
-- The text of a whole number is a number of JSON.
use gplug_mini.Base.{
  ℕ, ◌+◌, ◌/◌, ◌%◌, ◌≤◌, ◌<◌, ◌≡◌, refl, true, false, [], ◌∷◌, ◌++◌, some, Bytes, decimal,
  decimal-induction, ◌==◌, if◌then◌else◌, arith, Option-cases, inl, inr,
}
use gplug_mini.Json.{
  ◌>>=◌, is_digit, Place, start, nil, whole, after_digit, go_on, walk, may_end, is_number,
}

walk-append : (p : Place) (s t : Bytes) → walk p (s ++ t) ≡ (walk p s >>= λ q. walk q t)
unfolding walk
walk-append p [] t = refl
walk-append p (c ∷ s) t = elim (Option-cases (go_on p c)) [
  | inl e ↦ rw e refl
  | inr (q, e) ↦ rw e (walk-append q s t)
]

digit : (d : ℕ) → d < 10 → is_digit (48 + d) ≡ true
unfolding is_digit
digit d h = ground arith

go_on-digit : (p : Place) (d : ℕ) → d < 10 → go_on p (48 + d) ≡ after_digit p (48 + d)
unfolding go_on
go_on-digit p d h = rw (digit d h) refl

-- Where the digits of a number lead: only those of 0 start with `0`.
Leads : ℕ → Bytes → Type 0
Leads n s = walk start s ≡ some (if n == 0 then nil else whole)

Leads-one : (d : ℕ) → d < 10 → Leads d ((48 + d) ∷ [])
unfolding Leads walk after_digit
Leads-one d h = rw (go_on-digit start d h) (ground arith)

Leads-next : (n : ℕ) (s : Bytes) → 10 ≤ n → Leads (n / 10) s → Leads n (s ++ (48 + n % 10) ∷ [])
unfolding Leads walk after_digit
Leads-next n s h ih =
    let high : (n / 10 == 0) ≡ false = ground arith in
    let all : (n == 0) ≡ false = ground arith in
    let to : walk start s ≡ some whole = rw high at ih in
    let last = go_on-digit whole (n % 10) (omega arith) in
    rw (walk-append start s ((48 + n % 10) ∷ []), to, last, all) refl

pub decimal-number : (n : ℕ) → is_number (decimal n) ≡ true
unfolding is_number may_end Leads
decimal-number n = rw (decimal-induction Leads Leads-one Leads-next n) (ground arith)
