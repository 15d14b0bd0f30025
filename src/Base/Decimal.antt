-- ===== src/Base/Decimal.antt =====
-- `printf`'s `%llu`, `%d` and `%u` of a number that is not negative.
use Prim.Native.Nat.{ℕ, zero, suc, ◌+◌, ◌-◌, ◌*◌, ◌/◌, ◌%◌, ◌^◌, ◌≤◌, ◌<◌}
use mathlib.Core.Path.{◌≡◌, refl, ◌∙◌}
use mathlib.Core.Logic.{inl, inr}
use mathlib.Core.List.{[], ◌∷◌, ◌++◌}
use native.Mathlib.Omega.{arith}
use native.Mathlib.Nat.{pow-suc}
use gplug_mini.Base.Bools.{ltb, if◌then◌else◌, Bool-cases}
use gplug_mini.Base.Lists.{length, length-append}
use gplug_mini.Base.CString.{Bytes}

-- The digits of `n`, with fuel.
digits : ℕ → ℕ → Bytes
digits zero n = []
digits (suc f) n =
    let high = digits f (n / 10) in if ltb n 10 then (48 + n) ∷ [] else high ++ (48 + n % 10) ∷ []

-- The fuel `n + 1` is enough: the number falls with each digit.
unfoldable pub decimal : ℕ → Bytes
unfolding digits
decimal n = digits (suc n) n

-- The number that a row of digits stands for, after `acc`.
unfoldable pub read_decimal : ℕ → Bytes → ℕ
read_decimal acc [] = acc
read_decimal acc (c ∷ s) = read_decimal (acc * 10 + (c - 48)) s

read_decimal-append :
    (acc : ℕ) (s t : Bytes) → read_decimal acc (s ++ t) ≡ read_decimal (read_decimal acc s) t
unfolding read_decimal
read_decimal-append acc [] t = refl
read_decimal-append acc (c ∷ s) t = read_decimal-append (acc * 10 + (c - 48)) s t

read_decimal-one : (acc d : ℕ) → read_decimal acc ((48 + d) ∷ []) ≡ acc * 10 + d
unfolding read_decimal
read_decimal-one acc d = omega arith

read_decimal-digits : (f n : ℕ) → n < f → read_decimal 0 (digits f n) ≡ n
unfolding digits
read_decimal-digits zero n h = absurd (omega arith)
read_decimal-digits (suc f) n h = elim (Bool-cases (ltb n 10)) [
  | inl e ↦ rw e (omega (arith, read_decimal-one 0 n))
  | inr e ↦ rw e (
      read_decimal-append 0 (digits f (n / 10)) _
      ∙ read_decimal-one _ (n % 10)
      ∙ ground (arith, read_decimal-digits f (n / 10) (ground arith)))
]

-- What is printed reads back as the number.
pub read_decimal-decimal : (n : ℕ) → read_decimal 0 (decimal n) ≡ n
unfolding decimal
read_decimal-decimal n = read_decimal-digits (suc n) n (omega arith)

length-digits-le : (k f n : ℕ) → n < 10 ^ suc k → length (digits f n) ≤ suc k
unfolding digits
length-digits-le k zero n h = omega arith
length-digits-le zero (suc f) n h = ground arith
length-digits-le (suc k) (suc f) n h =
    let small : n / 10 < 10 ^ suc k = omega (arith, pow-suc 10 (suc k)) in
    ground (
      arith,
      length-append (digits f (n / 10)) ((48 + n % 10) ∷ []),
      length-digits-le k f (n / 10) small,
    )

-- A number below a power of ten has no more digits than the exponent.
pub length-decimal-le : (k n : ℕ) → n < 10 ^ suc k → length (decimal n) ≤ suc k
unfolding decimal
length-decimal-le k n h = length-digits-le k (suc n) n h

digits-pos : (f n : ℕ) → 0 < length (digits (suc f) n)
unfolding digits
digits-pos f n = ground (arith, length-append (digits f (n / 10)) ((48 + n % 10) ∷ []))

pub decimal-pos : (n : ℕ) → 0 < length (decimal n)
unfolding decimal
decimal-pos n = digits-pos n n

-- A property of all decimal texts, by their digits from the first.
digits-induction {ℓ} :
    (P : ℕ → Bytes → Type ℓ)
    → ((d : ℕ) → d < 10 → P d ((48 + d) ∷ []))
    → ((n : ℕ) (s : Bytes) → 10 ≤ n → P (n / 10) s → P n (s ++ (48 + n % 10) ∷ []))
    → (f n : ℕ) → n < f
    → P n (digits f n)
unfolding digits
digits-induction P first next zero n h = absurd (omega arith)
digits-induction P first next (suc f) n h = elim (Bool-cases (ltb n 10)) [
  | inl e ↦ rw e (first n (ground (arith, e)))
  | inr e ↦ rw e (
      next n (digits f (n / 10)) (ground (arith, e))
        (digits-induction P first next f (n / 10) (ground (arith, e))))
]

pub decimal-induction {ℓ} :
    (P : ℕ → Bytes → Type ℓ)
    → ((d : ℕ) → d < 10 → P d ((48 + d) ∷ []))
    → ((n : ℕ) (s : Bytes) → 10 ≤ n → P (n / 10) s → P n (s ++ (48 + n % 10) ∷ []))
    → (n : ℕ) → P n (decimal n)
unfolding decimal
decimal-induction P first next n = digits-induction P first next (suc n) n (omega arith)
