-- ===== src/CycleSet/Message.antt =====
-- The abstract message of a cycle: a JSON object with one member for each register, in the
-- order of their first readings.
use gplug_mini.Base.{
  Bool, false, ◌||◌, List, [], ◌∷◌, ◌++◌, map, Option, none, some, Bytes, codes, str_eq,
  if◌then◌else◌,
}

-- A reading: a register's label, and the text of its value.
abbrev pub Reading : Type 0
Reading = Bytes × Bytes

abbrev pub labels_of : List Reading → List Bytes
labels_of = map (λ r. r.0)

unfoldable pub member : Bytes → Bytes → Bytes
member l v = codes "\"" ++ (l ++ (codes "\":" ++ v))

-- The members, each with what stands in front of it.
unfoldable pub members : Bytes → List Reading → Bytes
members lead [] = []
members lead ((l, v) ∷ rs) = lead ++ (member l v ++ members (codes ",") rs)

abbrev pub body : List Reading → Bytes
body = members (codes "{")

-- The whole message.
abbrev pub message : List Reading → Bytes
message rs = body rs ++ codes "}"

unfoldable pub has : Bytes → List Bytes → Bool
has l [] = false
has l (x ∷ xs) = str_eq x l || has l xs

-- The first reading of each register, behind those that are kept already.
unfoldable pub keep : List Reading → List Reading → List Reading
keep kept [] = kept
keep kept ((l, v) ∷ rs) = keep (if has l (labels_of kept) then kept else kept ++ ((l, v) ∷ [])) rs

-- The first value under a label.
unfoldable pub find : Bytes → List Reading → Option Bytes
find l [] = none
find l ((k, v) ∷ rs) = if str_eq k l then some v else find l rs
