-- ===== src/Form/Bounds.antt =====
-- main/provisioning.cpp: the lengths of what `url_decode` and `field` write.
use gplug_mini.Base.{
  ℕ, ◌≤◌, ◌<◌, ◌≡◌, Bool, true, ◌&&◌, [], ◌∷◌, none, some, Bytes, ◌==◌, length, drop, arith, before,
  length-c_str-le, codes, ◌++◌, strncmp_eq, Bool-cases, inl, inr,
}
use gplug_mini.Form.{url_decode, field_value, field_from, field, Found}

-- Decoding in place never overtakes what it reads.
pub length-url_decode-le : (s : Bytes) → length (url_decode s) ≤ length s
unfolding url_decode
length-url_decode-le [] = omega arith
length-url_decode-le (c ∷ []) = omega arith
length-url_decode-le (c ∷ a ∷ []) = omega (arith, length-url_decode-le (a ∷ []))
length-url_decode-le (c ∷ a ∷ b ∷ s) =
    ground (arith, length-url_decode-le (a ∷ b ∷ s), length-url_decode-le s)

abbrev pub Below : ℕ → Found → Type 0
Below size none = Unit
Below size (some t) = length t < size

field_value-Below : (p : Bytes) (size : ℕ) → Below size (field_value p size)
unfolding field_value
field_value-Below p size =
    ground
      (arith, length-url_decode-le (before b'&' p), length-c_str-le (url_decode (before b'&' p)))

field_from-Below :
    (key : Bytes) (size : ℕ) (begins : Bool) (s : Bytes)
    → 0 < size
    → Below size (field_from key size begins s)
unfolding field_from
field_from-Below key size begins [] h =
    elim (Bool-cases (begins && strncmp_eq (length key) key [])) [
      | inl e ↦ rw e (field_value-Below [] size)
      | inr e ↦ rw e h
    ]
field_from-Below key size begins (c ∷ s) h =
    let later = field_from-Below key size (c == b'&') s h in
    elim (Bool-cases (begins && strncmp_eq (length key) key (c ∷ s))) [
      | inl e ↦ rw e (field_value-Below (drop (length key) (c ∷ s)) size)
      | inr e ↦ rw e later
    ]

pub field-Below : (body name : Bytes) (size : ℕ) → 0 < size → Below size (field body name size)
unfolding field
field-Below body name size h = field_from-Below (name ++ codes "=") size true body h

-- What `field` leaves in an array of `size` characters is, with its NUL, no longer than the array,
-- whatever the body is.
pub field-lt :
    (body name : Bytes) {size : ℕ} {t : Bytes}
    → 0 < size
    → field body name size ≡ some t
    → length t < size
field-lt body name {size} h e = rw e at (field-Below body name size h)
