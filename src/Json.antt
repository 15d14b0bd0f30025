-- ===== src/Json.antt =====
-- A reader of JSON (RFC 8259), apart from the code: what a subscriber makes of the payloads that
-- main/ha_discovery.cpp and main/aggregator.h write. A text with an escape, an exponent, white space
-- between the tokens, or one of `true`, `false` and `null` is not read: the device writes none of them.
pub mod Reads
pub mod Nested
pub mod Integer
mod Tests
use gplug_mini.Base.{
  ℕ, zero, suc, ◌+◌, ◌*◌, Bool, true, false, not, ◌&&◌, ◌||◌, List, [], ◌∷◌, Option, none, some,
  Bytes, ltb, in_range, ◌==◌, if◌then◌else◌, length,
}

mutual
  pub data Json : Type 0 where
    text number : Bytes → Json
    array : Items → Json
    object : Fields → Json

  pub data Items : Type 0 where
    no_items : Items
    item : Json → Items → Items

  pub data Fields : Type 0 where
    no_fields : Fields
    field : Bytes → Json → Fields → Fields

infixl 1 ◌>>=◌
abbrev pub ◌>>=◌ : {A B : Type 0} → Option A → (A → Option B) → Option B
none >>= f = none
some a >>= f = f a

-- A character that stands for itself in a string: no quote, no backslash, no control character.
unfoldable pub is_plain : ℕ → Bool
is_plain c = not (ltb c 0x20) && (not (c == 0x22) && not (c == 0x5C))

unfoldable pub is_digit : ℕ → Bool
is_digit c = in_range c 0x30 0x39

-- One character, and what is behind it.
unfoldable pub expect : ℕ → Bytes → Option Bytes
expect c [] = none
expect c (x ∷ s) = if x == c then some s else none

-- The characters of a string behind its opening quote, and what is behind the closing one.
unfoldable pub read_text : Bytes → Option (Bytes × Bytes)
read_text [] = none
read_text (c ∷ s) =
    let more = read_text s >>= λ (t, rest). some (c ∷ t, rest) in
    if c == 0x22 then some ([], s) else if is_plain c then more else none

-- Where a number may be cut: behind `-`, behind a leading `0`, in its whole part, behind the point, in
-- its decimals.
pub data Place : Type 0 where
  start minus nil whole point part : Place

unfoldable pub after_digit : Place → ℕ → Option Place
after_digit start c = some (if c == 0x30 then nil else whole)
after_digit minus c = some (if c == 0x30 then nil else whole)
after_digit nil c = none
after_digit whole c = some whole
after_digit point c = some part
after_digit part c = some part

unfoldable pub after_point : Place → Option Place
after_point nil = some point
after_point whole = some point
after_point _ = none

unfoldable pub after_minus : Place → Option Place
after_minus start = some minus
after_minus _ = none

unfoldable pub go_on : Place → ℕ → Option Place
go_on p c =
    if is_digit c
    then after_digit p c
    else if c == 0x2E
    then after_point p
    else if c == 0x2D
    then after_minus p
    else none

unfoldable pub walk : Place → Bytes → Option Place
walk p [] = some p
walk p (c ∷ s) = go_on p c >>= λ q. walk q s

unfoldable pub may_end : Option Place → Bool
may_end (some nil) = true
may_end (some whole) = true
may_end (some part) = true
may_end _ = false

unfoldable pub is_number : Bytes → Bool
is_number s = may_end (walk start s)

-- The characters that a number is made of.
unfoldable pub is_numeral : ℕ → Bool
is_numeral c = is_digit c || (c == 0x2E || c == 0x2D)

unfoldable pub numerals : Bytes → Bytes × Bytes
numerals [] = ([], [])
numerals (c ∷ s) = let (n, rest) = numerals s in if is_numeral c then (c ∷ n, rest) else ([], c ∷ s)

unfoldable pub read_number : Bytes → Option (Json × Bytes)
read_number s = let (n, rest) = numerals s in if is_number n then some (number n, rest) else none

-- What a value starts with.
pub data Lead : Type 0 where
  quote bracket brace other : Lead

unfoldable pub lead : Bytes → Lead
lead [] = other
lead (c ∷ s) =
    if c == 0x22 then quote else if c == 0x5B then bracket else if c == 0x7B then brace else other

unfoldable pub behind : Bytes → Bytes
behind [] = []
behind (c ∷ s) = s

unfoldable pub starts : ℕ → Bytes → Bool
starts c [] = false
starts c (x ∷ s) = x == c

-- A comma, but not in front of the first.
unfoldable pub separated : Bool → Bytes → Option Bytes
separated true s = some s
separated false s = expect 0x2C s

-- A name with its quotes and the colon.
unfoldable pub read_name : Bytes → Option (Bytes × Bytes)
read_name s = do s1 ← expect 0x22 s; (t, s2) ← read_text s1; s3 ← expect 0x3A s2; some (t, s3)

-- Each call costs a unit of fuel.
unfoldable mutual
  pub read_value : ℕ → Bytes → Option (Json × Bytes)
  read_value zero s = none
  read_value (suc f) s = elim (lead s) [
    | quote ↦ read_text (behind s) >>= λ (t, rest). some (text t, rest)
    | bracket ↦ read_items f true (behind s) >>= λ (vs, rest). some (array vs, rest)
    | brace ↦ read_members f true (behind s) >>= λ (fs, rest). some (object fs, rest)
    | other ↦ read_number s
  ]

  pub read_items : ℕ → Bool → Bytes → Option (Items × Bytes)
  read_items zero first s = none
  read_items (suc f) first s = elim (starts 0x5D s) [
    | true ↦ some (no_items, behind s)
    | false ↦ separated first s >>= λ s1. read_value f s1 >>= λ (v, s2).
        read_items f false s2 >>= λ (vs, rest). some (item v vs, rest)
  ]

  pub read_members : ℕ → Bool → Bytes → Option (Fields × Bytes)
  read_members zero first s = none
  read_members (suc f) first s = elim (starts 0x7D s) [
    | true ↦ some (no_fields, behind s)
    | false ↦ separated first s >>= λ s1. read_name s1 >>= λ (k, s2). read_value f s2 >>= λ (v, s3).
        read_members f false s3 >>= λ (fs, rest). some (field k v fs, rest)
  ]

unfoldable pub all_read : Json × Bytes → Option Json
all_read (v, []) = some v
all_read (v, c ∷ s) = none

-- A text that is one value; a level of nesting and a separator each take a character, and the fuel is
-- their number.
unfoldable pub read_json : Bytes → Option Json
read_json s = read_value (2 * length s + 2) s >>= all_read
