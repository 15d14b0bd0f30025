-- ===== src/CycleSet/Read.antt =====
-- main/aggregator.h: what a reader of JSON makes of the message of a cycle.
use gplug_mini.Base.{
  ◌≤◌, ◌<◌, ◌≡◌, refl, true, List, [], ◌∷◌, ◌++◌, some, map, Bytes, codes, length, length-append,
  append_assoc, All, arith, none, Option, str_eq, if◌then◌else◌, All-append, Bool-cases, inl, inr,
}
use gplug_mini.CycleSet.Cycle.{keep-has, keep-new}
use gplug_mini.Json.{Fields, no_fields, field, Json, number, object, is_number, read_json}
use gplug_mini.CycleSet.Message.{
  labels_of, has, keep, find, Reading, member, members, body, message,
}
use gplug_mini.Json.Reads.{IsPlain}
use gplug_mini.Json.Nested.{Member, IsRead, one, more, fields, number-ReadsAs, read_json-object}

-- A reading that can stand in the message: a name without quotes, and a number as JSON has them.
pub record IsMember (r : Reading) : Type 0 where
  pub label : IsPlain r.0
  pub value : is_number r.1 ≡ true

-- The member that a reading becomes.
abbrev pub as_member : Reading → Member
as_member r = record { name = r.0; printed = r.1; value = number r.1 }

pub as_member-IsRead : (rs : List Reading) → All IsMember rs → All (IsRead 1) (map as_member rs)
as_member-IsRead [] h = tt
as_member-IsRead (r ∷ rs) h =
    (record { name = h.0.label; value = number-ReadsAs r.1 h.0.value }, as_member-IsRead rs h.1)

pub members-more :
    (rs : List Reading) (s : Bytes) → members (codes ",") rs ++ s ≡ more (map as_member rs) s
unfolding members more member one
members-more [] s = refl
members-more ((l, v) ∷ rs) s = simp (append_assoc, members-more rs s) refl

pub length-map : (rs : List Reading) → length (map as_member rs) ≡ length rs
length-map [] = refl
length-map (r ∷ rs) = omega (arith, length-map rs)

-- What a reader of JSON makes of a message: the readings, in their order.
abbrev pub says : List Reading → Json
says rs = object (fields (map as_member rs))

pub length-body-le : (rs : List Reading) → length rs ≤ length (members (codes ",") rs)
unfolding members
length-body-le [] = omega arith
length-body-le ((l, v) ∷ rs) =
    omega (arith, length-body-le rs, length-append (member l v) (members (codes ",") rs))

-- A message with at least one reading, whose names hold no quote, backslash or control character, and
-- whose values are numbers as JSON has them, reads as the object of just these names and numbers, in
-- their order.
pub read_json-message :
    (rs : List Reading) → 0 < length rs → All IsMember rs → read_json (message rs) ≡ some (says rs)
unfolding members member one
read_json-message [] k h = absurd (omega arith)
read_json-message ((l, v) ∷ rs) k h =
    let ms = map as_member rs in
    let m = as_member (l, v) in
    let text : message ((l, v) ∷ rs) ≡ 0x7B ∷ one m (more ms (0x7D ∷ [])) =
      simp (append_assoc, members-more rs (0x7D ∷ [])) refl in
    let few = length-body-le rs in
    let size = length-append (member l v) (members (codes ",") rs) in
    let total = length-append (body ((l, v) ∷ rs)) (codes "}") in
    let count = length-map rs in
    let reads : All (IsRead 1) (m ∷ ms) = as_member-IsRead ((l, v) ∷ rs) h in
    read_json-object 1 m ms (message ((l, v) ∷ rs)) text reads
      (omega (arith, few, size, total, count))

-- The number of the first field under a name.
unfoldable pub number_in : Bytes → Fields → Option Bytes
number_in l no_fields = none
number_in l (field k (number n) fs) = if str_eq k l then some n else number_in l fs
number_in l (field k _ fs) = if str_eq k l then none else number_in l fs

unfoldable pub number_under : Bytes → Json → Option Bytes
number_under l (object fs) = number_in l fs
number_under l _ = none

pub number_in-find :
    (l : Bytes) (rs : List Reading) → number_in l (fields (map as_member rs)) ≡ find l rs
unfolding number_in fields find
number_in-find l [] = refl
number_in-find l ((k, v) ∷ rs) = rw (number_in-find l rs) refl

pub keep-All :
    (P : Reading → Type 0) (kept rs : List Reading) → All P kept → All P rs → All P (keep kept rs)
keep-All P kept [] h k = unfold keep in h
keep-All P kept ((l, v) ∷ rs) h k = elim (Bool-cases (has l (labels_of kept))) [
  | inl e ↦ rw (keep-has kept l v rs e) (keep-All P kept rs h k.1)
  | inr e ↦
      rw (keep-new kept l v rs e)
        (keep-All P (kept ++ (l, v) ∷ []) rs (All-append P kept ((l, v) ∷ []) h (k.0, tt)) k.1)
]
