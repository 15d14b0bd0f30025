-- ===== src/Json/Reads.antt =====
-- What the reader of Json makes of the pieces of a text, with anything behind them.
use gplug_mini.Base.{
  ℕ, zero, suc, ◌≤◌, ◌<◌, ◌≡◌, refl, Bool, true, false, ◌&&◌, [], ◌∷◌, ◌++◌, some, Bytes, ◌==◌,
  length, All, arith, Bool-cases, Option-cases, inl, inr,
}
use gplug_mini.Json.{
  text, number, is_plain, is_digit, expect, read_text, Place, start, go_on, walk, may_end,
  is_number, is_numeral, numerals, read_number, other, lead, behind, read_name, read_value,
}

-- The characters of a string that is written as it is.
abbrev pub IsPlain : Bytes → Type 0
IsPlain = All (λ c. is_plain c ≡ true)

unfoldable pub all_plain : Bytes → Bool
all_plain [] = true
all_plain (c ∷ s) = is_plain c && all_plain s

pub all_plain-IsPlain : (s : Bytes) → all_plain s ≡ true → IsPlain s
unfolding all_plain
all_plain-IsPlain [] h = tt
all_plain-IsPlain (c ∷ s) h = (ground (arith, h), all_plain-IsPlain s (ground (arith, h)))

pub read_text-IsPlain : (t rest : Bytes) → IsPlain t → read_text (t ++ 0x22 ∷ rest) ≡ some (t, rest)
unfolding read_text
read_text-IsPlain [] rest h = refl
read_text-IsPlain (c ∷ t) rest h =
    let quoted : (c == 0x22) ≡ false = unfold is_plain in ground (arith, h.0) in
    rw (quoted, h.0, read_text-IsPlain t rest h.1) refl

pub read_name-IsPlain :
    (t rest : Bytes) → IsPlain t → read_name (0x22 ∷ t ++ 0x22 ∷ 0x3A ∷ rest) ≡ some (t, rest)
unfolding read_name expect
read_name-IsPlain t rest h = rw (read_text-IsPlain t (0x3A ∷ rest) h) refl

-- A string.
pub read_value-text :
    (t rest : Bytes) (f : ℕ)
    → IsPlain t
    → 1 ≤ f
    → read_value f (0x22 ∷ t ++ 0x22 ∷ rest) ≡ some (text t, rest)
unfolding read_value lead behind
read_value-text t rest zero h k = absurd (omega arith)
read_value-text t rest (suc f) h k = rw (read_text-IsPlain t rest h) refl

-- No character of a number is next.
unfoldable pub Stops : Bytes → Type 0
Stops [] = Unit
Stops (c ∷ s) = is_numeral c ≡ false

go_on-numeral : (p q : Place) (c : ℕ) → go_on p c ≡ some q → is_numeral c ≡ true
unfolding go_on is_numeral
go_on-numeral p q c h = elim (Bool-cases (is_digit c)) [
  | inl d ↦ rw d refl
  | inr d ↦ elim (Bool-cases (c == 0x2E)) [
    | inl e ↦ rw (d, e) refl
    | inr e ↦ elim (Bool-cases (c == 0x2D)) [
      | inl g ↦ rw (d, e, g) refl
      | inr g ↦ cc (rw (d, e, g) at h)
    ]
  ]
]

numerals-walk :
    (p : Place) (n rest : Bytes)
    → may_end (walk p n) ≡ true
    → Stops rest
    → numerals (n ++ rest) ≡ (n, rest)
unfolding walk numerals Stops may_end
numerals-walk p [] [] h k = refl
numerals-walk p [] (c ∷ rest) h k = rw k refl
numerals-walk p (c ∷ n) rest h k = elim (Option-cases (go_on p c)) [
  | inl e ↦ cc (rw e at h)
  | inr (q, e) ↦
      let more = numerals-walk q n rest (rw e at h) k in rw (more, go_on-numeral p q c e) refl
]

-- What starts a number.
lead_number : (c : ℕ) (s : Bytes) → is_numeral c ≡ true → lead (c ∷ s) ≡ other
unfolding lead is_numeral is_digit
lead_number c s h = ground (arith, h)

lead-walk : (n rest : Bytes) → may_end (walk start n) ≡ true → lead (n ++ rest) ≡ other
unfolding walk may_end
lead-walk [] rest h = cc h
lead-walk (c ∷ n) rest h = elim (Option-cases (go_on start c)) [
  | inl e ↦ cc (rw e at h)
  | inr (q, e) ↦ lead_number c (n ++ rest) (go_on-numeral start q c e)
]

pub is_number-pos : (n : Bytes) → is_number n ≡ true → 0 < length n
unfolding is_number walk may_end
is_number-pos [] h = cc h
is_number-pos (c ∷ n) h = omega arith

pub read_value-number :
    (n rest : Bytes) (f : ℕ)
    → is_number n ≡ true
    → Stops rest
    → 1 ≤ f
    → read_value f (n ++ rest) ≡ some (number n, rest)
unfolding read_value is_number read_number
read_value-number n rest zero h k l = absurd (omega arith)
read_value-number n rest (suc f) h k l =
    rw (lead-walk n rest h, read_value, numerals-walk start n rest h k, h, read_number) refl
