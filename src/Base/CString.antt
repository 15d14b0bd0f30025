-- ===== src/Base/CString.antt =====
-- The C library's strings, as the lists of their characters before the terminating NUL. A byte is
-- a number below 256; a `char` array is the text that it holds.
use Prim.Native.Nat.{ℕ, zero, suc, ◌-◌, ◌≤◌, ◌<◌}
use Prim.Native.Char.{code}
use Prim.Native.String.{String}
use mathlib.Core.Path.{◌≡◌, refl, ap}
use mathlib.Core.Logic.{◌↔◌, ◌≢◌, inl, inr}
use mathlib.Core.Bool.{Bool, true, false, ◌&&◌, ◌||◌}
use mathlib.Core.Option.{Option, none, some}
use mathlib.Core.List.{List, [], ◌∷◌, ◌++◌}
use native.Mathlib.Omega.{arith}
use gplug_mini.Base.Bools.{◌==◌, if◌then◌else◌, Bool-cases}
use gplug_mini.Base.Lists.{length, take, All, take_all, length-take}

abbrev pub Bytes : Type 0
Bytes = List ℕ

-- The characters of a literal; every literal of the program is ASCII.
abbrev pub codes : String → Bytes
codes String.[] = []
codes (String.◌∷◌ c s) = code c ∷ codes s

-- No NUL among the characters.
abbrev pub IsText : Bytes → Type 0
IsText = All (λ c. c ≢ 0)

-- The string that a byte array holds: what stands before its first NUL.
unfoldable pub c_str : Bytes → Bytes
c_str [] = []
c_str (c ∷ s) = if c == 0 then [] else c ∷ c_str s

pub length-c_str-le : (s : Bytes) → length (c_str s) ≤ length s
unfolding c_str
length-c_str-le [] = omega arith
length-c_str-le (c ∷ s) = ground (arith, length-c_str-le s)

pub c_str-IsText : (s : Bytes) → IsText (c_str s)
unfolding c_str
c_str-IsText [] = tt
c_str-IsText (c ∷ s) = ground (arith, c_str-IsText s)

pub c_str-fix : (s : Bytes) → IsText s → c_str s ≡ s
unfolding c_str
c_str-fix [] h = refl
c_str-fix (c ∷ s) h = ground (arith, c_str-fix s h.1)

-- `strcmp(a, b) == 0`
unfoldable pub str_eq : Bytes → Bytes → Bool
str_eq [] [] = true
str_eq (x ∷ a) (y ∷ b) = x == y && str_eq a b
str_eq _ _ = false

pub str_eq_iff : (a b : Bytes) → (str_eq a b ≡ true) ↔ (a ≡ b)
unfolding str_eq
str_eq_iff (x ∷ a) (y ∷ b) = ground (arith, str_eq_iff a b)
str_eq_iff _ _ = ground arith

pub str_eq_refl : (a : Bytes) → str_eq a a ≡ true
str_eq_refl a = (str_eq_iff a a).1 refl

-- `strncmp(a, b, n) == 0`
unfoldable pub strncmp_eq : ℕ → Bytes → Bytes → Bool
strncmp_eq zero a b = true
strncmp_eq (suc n) [] [] = true
strncmp_eq (suc n) (x ∷ a) (y ∷ b) = x == y && strncmp_eq n a b
strncmp_eq (suc n) _ _ = false

pub strncmp_eq_refl : (n : ℕ) (a : Bytes) → strncmp_eq n a a ≡ true
unfolding strncmp_eq
strncmp_eq_refl zero a = refl
strncmp_eq_refl (suc n) [] = refl
strncmp_eq_refl (suc n) (x ∷ a) = ground (arith, strncmp_eq_refl n a)

-- Against a shorter text the bound plays no part.
pub strncmp_eq-str_eq : (n : ℕ) (a b : Bytes) → length a < n → strncmp_eq n a b ≡ str_eq a b
unfolding strncmp_eq str_eq
strncmp_eq-str_eq zero a b h = absurd (omega arith)
strncmp_eq-str_eq (suc n) [] [] h = refl
strncmp_eq-str_eq (suc n) [] (y ∷ b) h = refl
strncmp_eq-str_eq (suc n) (x ∷ a) [] h = refl
strncmp_eq-str_eq (suc n) (x ∷ a) (y ∷ b) h =
    ap (◌&&◌ (x == y)) (strncmp_eq-str_eq n a b (omega arith))

abbrev pub IsPrefixOf : Bytes → Bytes → Type 0
IsPrefixOf p s = (rest : Bytes) × (s ≡ p ++ rest)

-- `strncmp(p, s, |p|) == 0` says that `p` is a prefix of `s`.
pub strncmp_eq-IsPrefix : (p s : Bytes) → (strncmp_eq (length p) p s ≡ true) ↔ IsPrefixOf p s
unfolding strncmp_eq
strncmp_eq-IsPrefix [] s = (λ _. (s, refl), λ _. refl)
strncmp_eq-IsPrefix (x ∷ p) [] = (λ e. cc, λ e. absurd (cc (e.1)))
strncmp_eq-IsPrefix (x ∷ p) (y ∷ s) =
    let ih = strncmp_eq-IsPrefix p s in
    (
      λ e. let (rest, t) = ih.0 (ground arith) in (rest, ground arith),
      λ e. ground (arith, e.1, ih.1 (e.0, ground (arith, e.1))),
    )

-- `strstr(s, needle) != nullptr`
unfoldable pub strstr : Bytes → Bytes → Bool
strstr [] needle = strncmp_eq (length needle) needle []
strstr (c ∷ s) needle = strncmp_eq (length needle) needle (c ∷ s) || strstr s needle

-- `t` stands somewhere in `s`.
abbrev pub Contains : Bytes → Bytes → Type 0
Contains t s = (a : Bytes) × (b : Bytes) × (s ≡ a ++ (t ++ b))

Contains-cons : (c : ℕ) (t s : Bytes) → Contains t s → Contains t (c ∷ s)
Contains-cons c t s (a, b, e) = (c ∷ a, b, ap (◌∷◌ c) e)

strstr-Contains : (s t : Bytes) → strstr s t ≡ true → Contains t s
unfolding strstr
strstr-Contains [] t h = let (b, e) = (strncmp_eq-IsPrefix t []).0 h in ([], b, e)
strstr-Contains (c ∷ s) t h = elim (Bool-cases (strncmp_eq (length t) t (c ∷ s))) [
  | inl p ↦ let (b, e) = (strncmp_eq-IsPrefix t (c ∷ s)).0 p in ([], b, e)
  | inr p ↦ Contains-cons c t s (strstr-Contains s t (ground arith))
]

strstr-prefix : (s t : Bytes) → IsPrefixOf t s → strstr s t ≡ true
unfolding strstr
strstr-prefix [] t h = (strncmp_eq-IsPrefix t []).1 h
strstr-prefix (c ∷ s) t h = rw ((strncmp_eq-IsPrefix t (c ∷ s)).1 h)

Contains-strstr : (s t a b : Bytes) → s ≡ a ++ (t ++ b) → strstr s t ≡ true
unfolding strstr
Contains-strstr s t [] b e = strstr-prefix s t (b, e)
Contains-strstr [] t (x ∷ a) b e = cc
Contains-strstr (c ∷ s) t (x ∷ a) b e = ground (arith, Contains-strstr s t a b (ground arith))

-- `strstr` finds exactly what stands in the text.
pub strstr_iff : (s t : Bytes) → (strstr s t ≡ true) ↔ Contains t s
strstr_iff s t = (strstr-Contains s t, λ h. Contains-strstr s t h.0 h.1 h.2)

-- What stands before the first `c` (`strchr` and the pointer difference), and what stands behind it.
unfoldable pub before : ℕ → Bytes → Bytes
before c [] = []
before c (x ∷ s) = if x == c then [] else x ∷ before c s

unfoldable pub after : ℕ → Bytes → Option Bytes
after c [] = none
after c (x ∷ s) = if x == c then some s else after c s

-- `snprintf(out, cap, …)` of a text: what the buffer then holds, and the length that it reports,
-- which is that of the whole text.
unfoldable pub snprintf : ℕ → Bytes → Bytes × ℕ
snprintf cap s = (take (cap - 1) s, length s)

pub snprintf-fits : (cap : ℕ) (s : Bytes) → length s < cap → snprintf cap s ≡ (s, length s)
unfolding snprintf
snprintf-fits cap s h = ap (λ (t : Bytes). (t, length s)) (take_all (cap - 1) s (omega arith))

pub length-snprintf : (cap : ℕ) (s : Bytes) → 0 < cap → length (snprintf cap s).0 < cap
unfolding snprintf
length-snprintf cap s h = omega (arith, length-take (cap - 1) s)
