-- ===== src/CycleSet/Overflow.antt =====
-- What happens at the end of the buffer.
use gplug_mini.Base.{
  ℕ, ◌+◌, ◌≤◌, ◌<◌, true, false, List, [], ◌∷◌, ◌++◌, Bytes, codes, ◌≡◌, refl, ap, sym, ◌∙◌, arith,
  length, length-append, take, take_all, take-append,
}
use gplug_mini.CycleSet.{
  CycleSet, append, key, stored, add_text, close, json_text, json_size, max_values, count,
}
use gplug_mini.CycleSet.Message.{Reading, labels_of, body, has}
use gplug_mini.CycleSet.Refinement.{Holds, append-fits, claim-new, key-pos, length-labels}

-- A text that does not fit leaves the text up to `len` and the length as they were.
append_overflow :
    (c : CycleSet) (s : Bytes) → json_size ≤ c.len + length s → (append c s).len ≡ c.len
unfolding append
append_overflow c s h = ground arith

take-append_overflow :
    (c : CycleSet) (s : Bytes) → c.len ≡ length c.json → take c.len (append c s).json ≡ c.json
unfolding append
take-append_overflow c s h =
    rw (h, take_all (length c.json) c.json (omega arith)) (take-append c.json _)

append-keeps :
    (c : CycleSet) (s : Bytes) → ((append c s).labels ≡ c.labels) × ((append c s).closed ≡ c.closed)
unfolding append
append-keeps c s = (refl, refl)

json_text_cut :
    (d : CycleSet) (v : Bytes)
    → d.len ≡ length d.json
    → d.closed ≡ false
    → 0 < count d
    → d.len + 2 < json_size
    → json_size ≤ d.len + length v
    → (json_text (append d v)).1 ≡ d.json ++ codes "}"
unfolding json_text close
json_text_cut d v e k n room over = ground (
  arith,
  append-keeps d v,
  append_overflow d v over,
  ap length (append-keeps d v).0,
  take-append_overflow d v e,
  ap (λ (m : ℕ). take m (append d v).json) (append_overflow d v over),
)

-- If the name of a new register fits the buffer and its value does not, `add_integer` and
-- `add_real` still report success: the register counts as present, and the message that `json()`
-- returns ends in that register's name with no value.
pub add_text_overflow :
    {c : CycleSet} {rs : List Reading} (l v : Bytes)
    → Holds c rs
    → has l (labels_of rs) ≡ false
    → length rs < max_values
    → length (body rs) + length (key (length (body rs)) l) + 2 < json_size
    → json_size ≤ length (body rs) + length (key (length (body rs)) l) + length v
    → ((add_text c l v).1 ≡ true)
      × (count (add_text c l v).0 ≡ length rs + 1)
      × ((json_text (add_text c l v).0).1 ≡ (body rs ++ key (length (body rs)) l) ++ codes "}")
unfolding add_text
add_text_overflow {c} {rs} l v h e n room over =
    let at_end : c.len ≡ length c.json = h.len_is ∙ ap length (sym h.json_is) in
    let named = length-append c.json (key c.len l) in
    let d : CycleSet = record c {
      json = c.json ++ key c.len l;
      len = length (c.json ++ key c.len l);
      labels = c.labels ++ stored l ∷ [];
    } in
    let counts : count d ≡ length rs + 1 =
      omega
        (arith, length-append c.labels (stored l ∷ []), ap length h.labels_is, length-labels rs) in
    let size : d.len ≡ length (body rs) + length (key (length (body rs)) l) =
      named ∙ rw (h.len_is, h.json_is) in
    rw
      (
        claim-new l v h e n,
        add_text,
        append-fits c (key c.len l) at_end (key-pos c.len l) (rw h.len_is (omega arith)),
      )
      (
        refl,
        ap length (append-keeps d v).0 ∙ counts,
        json_text_cut d v refl h.open_is (omega arith) (omega arith) (omega arith)
            ∙ rw (h.json_is, h.len_is),
      )
