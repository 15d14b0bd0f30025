-- ===== src/CycleSet/Bounds.antt =====
-- main/aggregator.h: what no use of the class exceeds, whatever is added to it.
use gplug_mini.Base.{
  ◌+◌, ◌-◌, ◌≤◌, ◌<◌, List, [], ◌∷◌, Bytes, codes, ltb, leb, ◌||◌, length, length-append, take,
  length-take, length-snprintf, snprintf, arith, Bool-cases, inl, inr, All, All-append,
}
use gplug_mini.CycleSet.{
  CycleSet, count, clear, append, key, claimed, stored, claim, add_text, close, is_empty, json_text,
  json_size, max_values, max_label,
}
use gplug_mini.CycleSet.Message.{Reading}
use gplug_mini.CycleSet.Cycle.{add_all}

-- The rows of `labels_` and the characters of each, `len_`, and the text in `json_`, each with room
-- for its NUL.
pub record IsWithin (c : CycleSet) : Type 0 where
  pub rows : count c ≤ max_values
  pub labels : All (λ l. length l < max_label) c.labels
  pub len_lt : c.len < json_size
  pub json_lt : length c.json < json_size

pub clear-IsWithin : IsWithin clear
clear-IsWithin = record {
  rows = omega arith;
  labels = tt;
  len_lt = omega arith;
  json_lt = omega arith;
}

stored-lt : (l : Bytes) → length (stored l) < max_label
stored-lt l = elim (Bool-cases (ltb (length l) max_label)) [
  | inl short ↦ rw short (ground (arith, length-take (length l) l))
  | inr long ↦ rw long (ground (arith, length-take (max_label - 1) l))
]

append-IsWithin : (c : CycleSet) (s : Bytes) → IsWithin c → IsWithin (append c s)
unfolding append
append-IsWithin c s h =
    let text = (snprintf (json_size - c.len) s).0 in
    let cut = length-snprintf (json_size - c.len) s (omega (arith, h.len_lt)) in
    let size = length-append (take c.len c.json) text in
    let front = length-take c.len c.json in
    record {
      rows = h.rows;
      labels = h.labels;
      len_lt = ground (arith, h.len_lt);
      json_lt = omega (arith, size, front, cut, h.len_lt);
    }

claim-IsWithin : (c : CycleSet) (l : Bytes) → IsWithin c → IsWithin (claim c l).0
unfolding claim
claim-IsWithin c l h = elim (Bool-cases (c.closed || leb max_values (count c))) [
  | inl full ↦ rw (full, claim) h
  | inr room ↦ elim (Bool-cases (claimed l c.labels)) [
    | inl known ↦ rw (room, known, claim) h
    | inr new ↦
        let more = append-IsWithin c (key c.len l) h in
        let counted = length-append c.labels (stored l ∷ []) in
        rw (room, new, claim)
          (record {
            rows = ground arith;
            labels =
                All-append (λ l. length l < max_label) c.labels (stored l ∷ []) h.labels
                  (stored-lt l, tt);
            len_lt = more.len_lt;
            json_lt = more.json_lt;
          })
  ]
]

add_text-IsWithin : (c : CycleSet) (l v : Bytes) → IsWithin c → IsWithin (add_text c l v).0
unfolding add_text
add_text-IsWithin c l v h = elim (Bool-cases (claim c l).1) [
  | inl ok ↦ rw (ok, add_text) (append-IsWithin (claim c l).0 v (claim-IsWithin c l h))
  | inr refused ↦ rw (refused, add_text) h
]

pub add_all-IsWithin : (c : CycleSet) (rs : List Reading) → IsWithin c → IsWithin (add_all c rs)
unfolding add_all
add_all-IsWithin c [] h = h
add_all-IsWithin c ((l, v) ∷ rs) h =
    add_all-IsWithin (add_text c l v).0 rs (add_text-IsWithin c l v h)

close-IsWithin : (c : CycleSet) → IsWithin c → IsWithin (close c)
unfolding close
close-IsWithin c h = elim (Bool-cases c.closed) [
  | inl over ↦
      rw (over, close)
        (record { rows = h.rows; labels = h.labels; len_lt = h.len_lt; json_lt = h.json_lt })
  | inr going ↦ elim (Bool-cases (ltb (c.len + 2) json_size)) [
    | inr full ↦
        rw (going, full, close)
          (record { rows = h.rows; labels = h.labels; len_lt = h.len_lt; json_lt = h.json_lt })
    | inl room ↦
        let size = length-append (take c.len c.json) (codes "}") in
        let front = length-take c.len c.json in
        rw (going, room, close)
          (record {
            rows = h.rows;
            labels = h.labels;
            len_lt = ground arith;
            json_lt = ground arith;
          })
  ]
]

pub json_text-IsWithin : (c : CycleSet) → IsWithin c → IsWithin (json_text c).0
unfolding json_text
json_text-IsWithin c h = elim (Bool-cases (is_empty c)) [
  | inl none_ ↦ rw (none_, json_text) h
  | inr some_ ↦ rw (some_, json_text) (close-IsWithin c h)
]
