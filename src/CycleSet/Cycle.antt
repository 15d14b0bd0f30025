-- ===== src/CycleSet/Cycle.antt =====
-- A whole cycle: the class after all of its readings, and the message that it gives.
use gplug_mini.Base.{
  ◌+◌, ◌≤◌, ◌<◌, true, false, List, [], ◌∷◌, ◌++◌, Bytes, ◌≡◌, refl, ap, ◌∙◌, arith, if◌then◌else◌,
  length, length-append, All, take_all, Bool-cases, inl, inr, ◌==◌,
}
use gplug_mini.CycleSet.{
  CycleSet, clear, key, add_text, close, json_text, json_size, max_values, max_label, count,
}
use gplug_mini.CycleSet.Message.{Reading, labels_of, members, body, message, has, keep}
use gplug_mini.CycleSet.Refinement.{Holds, body-snoc, length-labels, add_text-has, add_text-new}

-- A label that the class keeps whole, and a value with a text.
pub record IsShort (r : Reading) : Type 0 where
  pub label : length r.0 < max_label
  pub value : 0 < length r.1

-- The readings of a cycle, in the order of the parse.
unfoldable pub add_all : CycleSet → List Reading → CycleSet
add_all c [] = c
add_all c ((l, v) ∷ rs) = add_all (add_text c l v).0 rs

pub keep-has :
    (kept : List Reading) (l v : Bytes) (rs : List Reading)
    → has l (labels_of kept) ≡ true
    → keep kept ((l, v) ∷ rs) ≡ keep kept rs
unfolding keep
keep-has kept l v rs e = rw e

pub keep-new :
    (kept : List Reading) (l v : Bytes) (rs : List Reading)
    → has l (labels_of kept) ≡ false
    → keep kept ((l, v) ∷ rs) ≡ keep (kept ++ (l, v) ∷ []) rs
unfolding keep
keep-new kept l v rs e = rw e

length-body-snoc :
    (rs : List Reading) (l v : Bytes) → length (body rs) ≤ length (body (rs ++ (l, v) ∷ []))
length-body-snoc rs l v =
    rw (body-snoc rs l v, length-append (body rs ++ key (length (body rs)) l) v)
      (omega (arith, length-append (body rs) (key (length (body rs)) l)))

-- What is kept only grows.
keep-grows :
    (kept rs : List Reading)
    → (length kept ≤ length (keep kept rs)) × (length (body kept) ≤ length (body (keep kept rs)))
keep-grows kept [] = unfold keep in (omega arith, omega arith)
keep-grows kept ((l, v) ∷ rs) = elim (Bool-cases (has l (labels_of kept))) [
  | inl e ↦ rw (keep-has kept l v rs e) (keep-grows kept rs)
  | inr e ↦
      let later = keep-grows (kept ++ (l, v) ∷ []) rs in
      let more = length-body-snoc kept l v in
      let one = length-append kept ((l, v) ∷ []) in
      rw (keep-new kept l v rs e) (omega arith, omega arith)
]

add_all-Holds :
    (c : CycleSet) (kept rs : List Reading)
    → Holds c kept
    → All IsShort rs
    → length (keep kept rs) ≤ max_values
    → length (body (keep kept rs)) < json_size
    → Holds (add_all c rs) (keep kept rs)
unfolding add_all
add_all-Holds c kept [] h s n fit = unfold keep in h
add_all-Holds c kept ((l, v) ∷ rs) h s n fit = elim (Bool-cases (has l (labels_of kept))) [
  | inl e ↦
      let same = keep-has kept l v rs e in
      rw (same, add_text-has l v h e, add_all)
        (add_all-Holds c kept rs h s.1 (rw same at n) (rw same at fit))
  | inr e ↦
      let taken = keep-new kept l v rs e in
      let grown = keep-grows (kept ++ (l, v) ∷ []) rs in
      let one = length-append kept ((l, v) ∷ []) in
      let n' = rw taken at n in
      let fit' = rw taken at fit in
      let next = add_text-new l v h e (omega arith) s.0.label s.0.value (omega arith) in
      rw taken (add_all-Holds (add_text c l v).0 (kept ++ (l, v) ∷ []) rs next.1 s.1 n' fit')
]

clear-Holds : Holds clear []
unfolding members
clear-Holds = record { json_is = refl; labels_is = refl; len_is = refl; open_is = refl; short = tt }

-- One row of `labels_` for each register.
pub count-add_all :
    (rs : List Reading)
    → All IsShort rs
    → length (keep [] rs) ≤ max_values
    → length (body (keep [] rs)) + 2 < json_size
    → count (add_all clear rs) ≡ length (keep [] rs)
count-add_all rs s n fit =
    let h = add_all-Holds clear [] rs clear-Holds s n (omega arith) in
    ap length h.labels_is ∙ length-labels (keep [] rs)

-- If labels are shorter than 28 characters, no value's text is empty, at most 16 registers report,
-- and the members of the message fit the buffer with room for the closing brace, then the
-- text that `json()` returns for a cycle's readings is the message of the first reading of each
-- register, in order, and the empty text where there is no reading.
pub json_text-add_all :
    (rs : List Reading)
    → All IsShort rs
    → length (keep [] rs) ≤ max_values
    → length (body (keep [] rs)) + 2 < json_size
    → (json_text (add_all clear rs)).1
      ≡ (if length (keep [] rs) == 0 then [] else message (keep [] rs))
unfolding json_text close
json_text-add_all rs s n fit =
    let h = add_all-Holds clear [] rs clear-Holds s n (omega arith) in
    let labels = ap length h.labels_is ∙ length-labels (keep [] rs) in
    ground (
      arith,
      labels,
      h.json_is,
      h.len_is,
      h.open_is,
      take_all (length (body (keep [] rs))) (body (keep [] rs)) (omega arith),
    )
