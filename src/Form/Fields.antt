-- ===== src/Form/Fields.antt =====
-- What `field` finds in the body that a browser submits.
use gplug_mini.Base.{
  ℕ, zero, suc, ◌<◌, ◌≡◌, ◌≢◌, refl, subst, sym, ap, ◌∙◌, Bool, true, false, List, [], ◌∷◌, ◌++◌,
  Option, none, some, Bytes, codes, leb, if◌then◌else◌, length, drop, drop-append, All, All-append,
  Bool-cases, inl, inr, arith, strncmp_eq, strncmp_eq-IsPrefix, before, c_str, str_eq, str_eq_iff,
  append_assoc,
}
use gplug_mini.Form.{field_value, field_from, field, Found}
use gplug_mini.Form.Decode.{stays, hex_digit, encode_char, url_encode, url_decode-url_encode}

-- A name and a value.
abbrev pub Pair : Type 0
Pair = Bytes × Bytes

abbrev pub tail_of : List Pair → Bytes → Bytes
tail_of [] rest = []
tail_of (_ ∷ _) rest = b'&' ∷ rest

-- The body of a form.
unfoldable pub form : List Pair → Bytes
form [] = []
form ((n, v) ∷ ps) = n ++ (codes "=" ++ (url_encode v ++ tail_of ps (form ps)))

-- A name has neither `=` nor `&` in it.
abbrev pub IsName : Bytes → Type 0
IsName = All (λ c. (c ≢ b'=') × (c ≢ b'&'))

abbrev pub IsPair : Pair → Type 0
IsPair p = IsName p.0 × All (λ c. c < 256) p.1

NoAmp : Bytes → Type 0
NoAmp = All (λ c. c ≢ b'&')

-- What stands under a name: the first value.
unfoldable pub first : Bytes → List Pair → Option Bytes
first name [] = none
first name ((n, v) ∷ ps) = if str_eq name n then some v else first name ps

-- What `field` is to give for it: a value whose encoding does not fit is refused.
abbrev pub expected : ℕ → Option Bytes → Found
expected size none = some []
expected size (some v) = if leb size (length (url_encode v)) then none else some (c_str v)

encode_char-NoAmp : (c : ℕ) → c < 256 → NoAmp (encode_char c)
unfolding NoAmp encode_char stays hex_digit
encode_char-NoAmp c h = ground arith

url_encode-NoAmp : (s : Bytes) → All (λ c. c < 256) s → NoAmp (url_encode s)
unfolding NoAmp url_encode
url_encode-NoAmp [] h = tt
url_encode-NoAmp (c ∷ s) h =
    All-append _ (encode_char c) (url_encode s) (encode_char-NoAmp c h.0) (url_encode-NoAmp s h.1)

before-tail_of :
    (s : Bytes) (ps : List Pair) (rest : Bytes) → NoAmp s → before b'&' (s ++ tail_of ps rest) ≡ s
unfolding NoAmp before
before-tail_of [] [] rest h = refl
before-tail_of [] (p ∷ ps) rest h = refl
before-tail_of (c ∷ s) ps rest h = ground (arith, before-tail_of s ps rest h.1)

IsName-NoAmp : (n : Bytes) → IsName n → NoAmp n
unfolding NoAmp
IsName-NoAmp [] h = tt
IsName-NoAmp (c ∷ n) h = (h.0.1, IsName-NoAmp n h.1)

drop-nil {ℓ} : {A : Type ℓ} (n : ℕ) → drop {A = A} n [] ≡ []
drop-nil zero = refl
drop-nil (suc n) = refl

field_from-hit :
    (size : ℕ) (key s : Bytes)
    → strncmp_eq (length key) key s ≡ true
    → field_from key size true s ≡ field_value (drop (length key) s) size
unfolding field_from
field_from-hit size key [] h = rw (h, drop-nil {A = ℕ} (length key))
field_from-hit size key (c ∷ s) h = rw h

-- A pair has the key exactly if it has the name.
strncmp_eq-name :
    (name n r : Bytes)
    → IsName name
    → IsName n
    → strncmp_eq (length (name ++ codes "=")) (name ++ codes "=") (n ++ (codes "=" ++ r))
      ≡ str_eq name n
unfolding strncmp_eq str_eq
strncmp_eq-name [] [] r h k = refl
strncmp_eq-name [] (y ∷ n) r h k = ground arith
strncmp_eq-name (x ∷ name) [] r h k = ground arith
strncmp_eq-name (x ∷ name) (y ∷ n) r h k = rw (strncmp_eq-name name n r h.1 k.1)

field_from-nil : (name : Bytes) (size : ℕ) → field_from (name ++ codes "=") size true [] ≡ some []
unfolding field_from strncmp_eq
field_from-nil [] size = refl
field_from-nil (c ∷ name) size = refl

if-expected :
    (size : ℕ) (b : Bool) (x y : Option Bytes)
    → (if b then expected size x else expected size y) ≡ expected size (if b then x else y)
if-expected size true x y = refl
if-expected size false x y = refl

module _ (name : Bytes) (size : ℕ) where
  abbrev key : Bytes
  key = name ++ codes "="

  -- The loop behind a pair: at the next one, or at the end.
  abbrev next : List Pair → Found
  next [] = some []
  next (p ∷ ps) = field_from key size true (form (p ∷ ps))

  skip :
      (s : Bytes) (ps : List Pair)
      → NoAmp s
      → field_from key size false (s ++ tail_of ps (form ps)) ≡ next ps
  unfolding NoAmp field_from
  skip [] [] h = refl
  skip [] (p ∷ ps) h = refl
  skip (c ∷ s) ps h = ground (arith, skip s ps h.1)

  hit : (x : Bytes) → field_from key size true (key ++ x) ≡ field_value x size
  hit x =
      field_from-hit size key (key ++ x) ((strncmp_eq-IsPrefix key (key ++ x)).1 (x, refl))
      ∙ ap (λ (t : Bytes). field_value t size) (drop-append key x)

  pass :
      (c : ℕ) (s : Bytes) (ps : List Pair)
      → NoAmp (c ∷ s)
      → strncmp_eq (length key) key (c ∷ s ++ tail_of ps (form ps)) ≡ false
      → field_from key size true (c ∷ s ++ tail_of ps (form ps)) ≡ next ps
  unfolding NoAmp field_from
  pass c s ps h miss = ground (arith, skip s ps h.1)

  field_value-encoded :
      (v : Bytes) (ps : List Pair)
      → All (λ c. c < 256) v
      → field_value (url_encode v ++ tail_of ps (form ps)) size ≡ expected size (some v)
  unfolding field_value
  field_value-encoded v ps h =
      rw (
        before-tail_of (url_encode v) ps (form ps) (url_encode-NoAmp v h),
        url_decode-url_encode v h,
      )

  other :
      (n x : Bytes) (ps : List Pair)
      → IsName name
      → IsName n
      → NoAmp x
      → str_eq name n ≡ false
      → field_from key size true (n ++ (codes "=" ++ (x ++ tail_of ps (form ps)))) ≡ next ps
  unfolding NoAmp
  other [] x ps hn h hx e =
      pass b'=' x ps ((λ q. omega arith), hx)
        (strncmp_eq-name name [] (x ++ tail_of ps (form ps)) hn h ∙ e)
  other (c ∷ n) x ps hn h hx e =
      let t = tail_of ps (form ps) in
      let assoc : n ++ (codes "=" ++ (x ++ t)) ≡ (n ++ (codes "=" ++ x)) ++ t =
        sym (append_assoc n (codes "=" ++ x) t) in
      let miss = strncmp_eq-name name (c ∷ n) (x ++ t) hn h ∙ e in
      let clean =
        All-append (λ d. d ≢ b'&') n (codes "=" ++ x) (IsName-NoAmp n h.1)
          ((λ q. omega arith), hx) in
      rw assoc (pass c (n ++ (codes "=" ++ x)) ps (h.0.1, clean) (rw assoc at miss))

  -- One pair, and then what is behind it.
  pair_step :
      (n v : Bytes) (ps : List Pair)
      → IsName name
      → IsPair (n, v)
      → field_from key size true (form ((n, v) ∷ ps))
        ≡ (if str_eq name n then expected size (some v) else next ps)
  unfolding form
  pair_step n v ps hn hp = elim (Bool-cases (str_eq name n)) [
    | inl e ↦
        let x = url_encode v ++ tail_of ps (form ps) in
        rw e (
          subst
            (λ (m : Bytes).
              field_from key size true (m ++ (codes "=" ++ x)) ≡ expected size (some v))
            ((str_eq_iff name n).0 e)
            (ap (field_from key size true) (sym (append_assoc name (codes "=") x))
              ∙ hit x
              ∙ field_value-encoded v ps hp.1))
    | inr e ↦ rw e (other n (url_encode v) ps hn hp.0 (url_encode-NoAmp v hp.1) e)
  ]

  field_from-form :
      (ps : List Pair)
      → IsName name
      → All IsPair ps
      → field_from key size true (form ps) ≡ expected size (first name ps)
  unfolding first form
  field_from-form [] hn h = field_from-nil name size
  field_from-form ((n, v) ∷ []) hn h = rw (pair_step n v [] hn h.0) (ground arith)
  field_from-form ((n, v) ∷ p ∷ ps) hn h =
      rw (pair_step n v (p ∷ ps) hn h.0, field_from-form (p ∷ ps) hn h.1)
        (if-expected size (str_eq name n) (some v) (first name (p ∷ ps)))

-- In the body of a form, `field` finds the first value of a name: the text that was typed, up to a
-- NUL, if the encoded value is shorter than the array; a value whose encoding is not is refused;
-- and a name that is not there has the empty text.
pub field-form :
    (ps : List Pair) (name : Bytes) (size : ℕ)
    → IsName name
    → All IsPair ps
    → field (form ps) name size ≡ expected size (first name ps)
unfolding field
field-form ps name size hn h = field_from-form name size ps hn h
