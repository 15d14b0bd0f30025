-- ===== src/Form.antt =====
-- main/provisioning.cpp, the form: `url_decode`, `field` and the reading of a submitted body. Texts
-- are the characters before a NUL.
pub mod Decode
pub mod Fields
pub mod Bounds
mod Tests
use gplug_mini.Base.{
  in_range, ℕ, ◌+◌, ◌-◌, ◌*◌, Bool, true, false, ◌&&◌, ◌||◌, List, [], ◌∷◌, ◌++◌, Option, none,
  some, Bytes, codes, leb, ◌==◌, if◌then◌else◌, length, drop, strncmp_eq, before, c_str,
}

-- The λ `hex`; `none` is -1.
unfoldable pub hex : ℕ → Option ℕ
hex c =
    if in_range c b'0' b'9'
    then some (c - b'0')
    else if in_range c b'a' b'f'
    then some (c - b'a' + 10)
    else if in_range c b'A' b'F'
    then some (c - b'A' + 10)
    else none

-- `hi >= 0 && lo >= 0`, and then the byte.
unfoldable pub hex_pair : ℕ → ℕ → Option ℕ
hex_pair a b = elim (hex a) [
  | none ↦ none
  | some hi ↦ elim (hex b) [ none ↦ none | some lo ↦ some (hi * 16 + lo) ]
]

abbrev pub plain : ℕ → ℕ
plain c = if c == b'+' then b' ' else c

-- What `url_decode` writes, from the character at `r` on; a `%` needs two more characters.
unfoldable pub url_decode : Bytes → Bytes
url_decode [] = []
url_decode (c ∷ []) = plain c ∷ []
url_decode (c ∷ a ∷ []) = plain c ∷ url_decode (a ∷ [])
url_decode (c ∷ a ∷ b ∷ s) =
    let next = url_decode (a ∷ b ∷ s) in
    let skip = url_decode s in
    if c == b'%'
    then elim (hex_pair a b) [ none ↦ c ∷ next | some v ↦ v ∷ skip ]
    else plain c ∷ next

-- What a field's search comes to: refused, or the text in `out`.
abbrev pub Found : Type 0
Found = Option Bytes

-- A value that is found, at `p`.
unfoldable pub field_value : Bytes → ℕ → Found
field_value p size =
    let value = before b'&' p in
    if leb size (length value) then none else some (c_str (url_decode value))

-- The loop of `field` over the body from `p` on. The flag says that a pair begins at `p`; the jump
-- to behind the next `&` is made a character at a time. An absent key leaves the empty text. The
-- array of 24 characters holds the key, since the names that are asked for have at most 6.
unfoldable pub field_from : Bytes → ℕ → Bool → Bytes → Found
field_from key size begins [] =
    if begins && strncmp_eq (length key) key [] then field_value [] size else some []
field_from key size begins (c ∷ s) =
    let rest = field_from key size (c == b'&') s in
    if begins && strncmp_eq (length key) key (c ∷ s)
    then field_value (drop (length key) (c ∷ s)) size
    else rest

unfoldable pub field : Bytes → Bytes → ℕ → Found
field body name size = field_from (name ++ codes "=") size true body
