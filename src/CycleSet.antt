-- ===== src/CycleSet.antt =====
-- main/aggregator.h, class CycleSet: one cycle's values, assembled into the state message. `json`
-- is the text in `json_`, up to its NUL; `labels` holds the first `count_` rows of `labels_`, so
-- that `count_` is its length. `real_text` stands for `"%.3f"`: the text of a `double`.
pub mod Message
pub mod Refinement
pub mod Cycle
pub mod First
pub mod Overflow
pub mod Room
pub mod Bounds
pub mod Read
pub mod Unread
pub mod Objects
mod Tests
use gplug_mini.Base.{
  ℕ, suc, ◌+◌, ◌-◌, ◌^◌, Bool, true, false, ◌&&◌, ◌||◌, List, [], ◌∷◌, ◌++◌, Bytes, codes, decimal,
  ltb, leb, ◌==◌, if◌then◌else◌, length, take, strncmp_eq, snprintf,
}

abbrev pub json_size : ℕ
json_size = 512

abbrev pub max_values : ℕ
max_values = 16

abbrev pub max_label : ℕ
max_label = 28

pub record CycleSet : Type 0 where
  pub json : Bytes
  pub labels : List Bytes
  pub len : ℕ
  pub closed : Bool

abbrev pub count : CycleSet → ℕ
count c = length c.labels

abbrev pub clear : CycleSet
clear = record { json = []; labels = []; len = 0; closed = false }

-- `vsnprintf` at `json_ + len_`; a text that does not fit is cut in the buffer, and `len_` stays.
unfoldable pub append : CycleSet → Bytes → CycleSet
append c s = record c {
  json = take c.len c.json ++ (snprintf (json_size - c.len) s).0;
  len = if ltb 0 (length s) && ltb (c.len + length s) json_size then c.len + length s else c.len;
}

abbrev pub key : ℕ → Bytes → Bytes
key len label =
    (if len == 0 then codes "{" else codes ",") ++ (codes "\"" ++ (label ++ codes "\":"))

unfoldable pub claimed : Bytes → List Bytes → Bool
claimed label [] = false
claimed label (l ∷ ls) = strncmp_eq max_label l label || claimed label ls

-- What is kept of a label.
abbrev pub stored : Bytes → Bytes
stored label = take (if ltb (length label) max_label then length label else max_label - 1) label

unfoldable pub claim : CycleSet → Bytes → CycleSet × Bool
claim c label =
    if c.closed || leb max_values (count c)
    then (c, false)
    else if claimed label c.labels
    then (c, false)
    else (record (append c (key c.len label)) { labels = c.labels ++ stored label ∷ [] }, true)

-- `add_integer` and `add_real`, which differ in the text of the value.
unfoldable pub add_text : CycleSet → Bytes → Bytes → CycleSet × Bool
add_text c label text =
    let (d, ok) = claim c label in if ok then (append d text, true) else (c, false)

unfoldable pub add_integer : CycleSet → Bytes → ℕ → CycleSet × Bool
add_integer c label value = add_text c label (decimal value)

unfoldable pub add_real :
    {Real : Type 0} → (Real → Bytes) → CycleSet → Bytes → Real → CycleSet × Bool
add_real real_text c label value = add_text c label (real_text value)

abbrev pub is_empty : CycleSet → Bool
is_empty c = count c == 0

-- `json()`: the message, and the set closed.
unfoldable pub close : CycleSet → CycleSet
close c =
    if c.closed
    then c
    else if ltb (c.len + 2) json_size
    then record c { json = take c.len c.json ++ codes "}"; len = c.len + 1; closed = true }
    else record c { closed = true }

unfoldable pub json_text : CycleSet → CycleSet × Bytes
json_text c = if is_empty c then (c, []) else (close c, (close c).json)
