-- ===== src/CycleSet/Unread.antt =====
-- main/aggregator.h: what a reader of JSON makes of a message that the buffer cut.
use gplug_mini.Base.{
  ℕ, zero, suc, ◌+◌, ◌*◌, ◌≤◌, ◌<◌, ◌≡◌, refl, true, false, List, [], ◌∷◌, ◌++◌, none, map, Bytes,
  codes, ◌==◌, length, append_assoc, All, arith,
}
use gplug_mini.CycleSet.{CycleSet, key, add_text, json_text, json_size, max_values, count}
use gplug_mini.CycleSet.Message.{Reading, labels_of, member, members, body, has}
use gplug_mini.CycleSet.Refinement.{Holds}
use gplug_mini.CycleSet.Overflow.{add_text_overflow}
use gplug_mini.CycleSet.Read.{IsMember, as_member, as_member-IsRead, members-more}
use gplug_mini.Json.{
  lead, behind, starts, separated, expect, numerals, is_numeral, is_digit, is_number, may_end, walk,
  read_number, read_value, read_members, read_json,
}
use gplug_mini.Json.Reads.{IsPlain, Stops, read_name-IsPlain}
use gplug_mini.Json.Nested.{Member, IsRead, one, more, length-one-ge}

-- A name without a value in front of the end of an object.
abbrev cut : Bytes → Bytes
cut l = 0x22 ∷ l ++ 0x22 ∷ 0x3A ∷ 0x7D ∷ []

no_value : (f : ℕ) → read_value f (0x7D ∷ []) ≡ none
unfolding read_value lead read_number numerals is_numeral is_digit is_number may_end walk
no_value zero = refl
no_value (suc f) = refl

cut-Stops : (ms : List Member) (l : Bytes) → Stops (more ms (0x2C ∷ cut l))
unfolding Stops more is_numeral is_digit
cut-Stops [] l = refl
cut-Stops (m ∷ ms) l = refl

read_members-cut :
    (d : ℕ) (ms : List Member) (l : Bytes) (f : ℕ)
    → All (IsRead d) ms
    → IsPlain l
    → length ms + d < f
    → read_members f false (more ms (0x2C ∷ cut l)) ≡ none
unfolding read_members starts separated expect more one Stops is_numeral is_digit
read_members-cut d ms l zero h k e = refl
read_members-cut d [] l (suc f) h k e = rw (read_name-IsPlain l (0x7D ∷ []) k, no_value f) refl
read_members-cut d (m ∷ ms) l (suc f) h k e =
    let rest = more ms (0x2C ∷ cut l) in
    let named = read_name-IsPlain m.name (m.printed ++ rest) h.0.name in
    let valued = h.0.value rest f (omega arith) (cut-Stops ms l) in
    let later = read_members-cut d ms l f h.1 k (omega arith) in rw (named, valued, later) refl

read_first-cut :
    (d : ℕ) (m : Member) (ms : List Member) (l : Bytes) (f : ℕ)
    → All (IsRead d) (m ∷ ms)
    → IsPlain l
    → length ms + d + 1 < f
    → read_members f true (one m (more ms (0x2C ∷ cut l))) ≡ none
unfolding read_members starts separated one
read_first-cut d m ms l zero h k e = refl
read_first-cut d m ms l (suc f) h k e =
    let rest = more ms (0x2C ∷ cut l) in
    let named = read_name-IsPlain m.name (m.printed ++ rest) h.0.name in
    let valued = h.0.value rest f (omega arith) (cut-Stops ms l) in
    let later = read_members-cut d ms l f h.1 k (omega arith) in rw (named, valued, later) refl

read_only-cut : (l : Bytes) (f : ℕ) → IsPlain l → read_members f true (cut l) ≡ none
unfolding read_members starts separated
read_only-cut l zero k = refl
read_only-cut l (suc f) k = rw (read_name-IsPlain l (0x7D ∷ []) k, no_value f) refl

read_json-brace :
    (s : Bytes) → read_members (2 * length s + 3) true s ≡ none → read_json (0x7B ∷ s) ≡ none
unfolding read_json read_value lead behind
read_json-brace s h =
    let fuel : 2 * length (0x7B ∷ s) + 2 ≡ suc (2 * length s + 3) = omega arith in rw (fuel, h) refl

length-more-ge : (ms : List Member) (s : Bytes) → length ms ≤ length (more ms s)
unfolding more
length-more-ge [] s = omega arith
length-more-ge (m ∷ ms) s = omega (arith, length-more-ge ms s, length-one-ge m (more ms s))

-- The message as the buffer cuts it.
abbrev cut_text : List Reading → Bytes → Bytes
cut_text rs l = (body rs ++ key (length (body rs)) l) ++ codes "}"

read_json-cut :
    (rs : List Reading) (l : Bytes) → All IsMember rs → IsPlain l → read_json (cut_text rs l) ≡ none
unfolding members member one
read_json-cut [] l h k =
    let text : cut_text [] l ≡ 0x7B ∷ cut l = simp append_assoc refl in
    rw text (read_json-brace (cut l) (read_only-cut l _ k))
read_json-cut ((n, v) ∷ rs) l h k =
    let m = as_member (n, v) in
    let ms = map as_member rs in
    let lead : (length (body ((n, v) ∷ rs)) == 0) ≡ false = ground arith in
    let text : cut_text ((n, v) ∷ rs) l ≡ 0x7B ∷ one m (more ms (0x2C ∷ cut l)) =
      rw lead (simp (append_assoc, members-more rs (0x2C ∷ cut l)) refl) in
    rw text (
      read_json-brace (one m (more ms (0x2C ∷ cut l))) (
        read_first-cut 1 m ms l _ (as_member-IsRead ((n, v) ∷ rs) h) k (
          omega
            (arith, length-more-ge ms (0x2C ∷ cut l), length-one-ge m (more ms (0x2C ∷ cut l))))))

-- If the name of a new register fits the buffer and its value does not, `add_integer` and `add_real`
-- still report success and the register counts as present, and the message that `json()` then returns
-- does not read as JSON, though all that it held before did.
pub read_json-add_text :
    {c : CycleSet} {rs : List Reading} (l v : Bytes)
    → Holds c rs
    → All IsMember rs
    → IsPlain l
    → has l (labels_of rs) ≡ false
    → length rs < max_values
    → length (body rs) + length (key (length (body rs)) l) + 2 < json_size
    → json_size ≤ length (body rs) + length (key (length (body rs)) l) + length v
    → ((add_text c l v).1 ≡ true)
      × (count (add_text c l v).0 ≡ length rs + 1)
      × (read_json (json_text (add_text c l v).0).1 ≡ none)
read_json-add_text {c} {rs} l v h members plain e n room over =
    let (done, counted, text) = add_text_overflow l v h e n room over in
    (done, counted, rw text (read_json-cut rs l members plain))
