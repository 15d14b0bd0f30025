-- ===== src/CycleSet/Tests.antt =====
-- A cycle of three readings of two registers, and a value that does not fit.
use gplug_mini.Base.{
  ◌+◌, ◌<◌, ◌≡◌, refl, true, false, List, [], ◌∷◌, Bytes, codes, length, replicate, All, arith,
  if◌then◌else◌, ◌==◌, str_eq, snprintf, strncmp_eq, ◌≤◌, none, ◌↔◌,
}
use gplug_mini.CycleSet.{
  clear, append, key, claimed, claim, add_text, close, json_text, json_size, max_values, count,
}
use gplug_mini.CycleSet.Message.{
  Reading, labels_of, members, body, message, has, keep, member, find,
}
use gplug_mini.CycleSet.Refinement.{Holds}
use gplug_mini.CycleSet.Cycle.{IsShort, add_all, json_text-add_all}
use gplug_mini.CycleSet.Unread.{read_json-add_text}
use gplug_mini.CycleSet.Objects.{IsRoomy, read_object, read_object-add_all_iff}
use gplug_mini.CycleSet.Read.{IsMember}
use gplug_mini.Json.{
  is_plain, is_number, read_json, may_end, walk, go_on, is_digit, after_digit, after_point,
}
use gplug_mini.Json.Reads.{IsPlain}

abbrev three : List Reading
three = (codes "a", codes "1") ∷ (codes "b", codes "2.500") ∷ (codes "a", codes "3") ∷ []

message_test : message (keep [] three) ≡ codes "{\"a\":1,\"b\":2.500}"
unfolding keep has str_eq members member
message_test = refl

json_text_test : (json_text (add_all clear three)).1 ≡ codes "{\"a\":1,\"b\":2.500}"
unfolding json_text close add_all add_text claim claimed append snprintf strncmp_eq
json_text_test = refl

three-IsShort : All IsShort three
three-IsShort = (
  record { label = omega arith; value = omega arith },
  (
    record { label = omega arith; value = omega arith },
    (record { label = omega arith; value = omega arith }, tt),
  ),
)

three_few : length (keep [] three) ≤ max_values
unfolding keep has str_eq
three_few = omega arith

three_fit : length (body (keep [] three)) + 2 < json_size
unfolding keep has str_eq members member
three_fit = omega arith

json_text-add_all_example :
    (json_text (add_all clear three)).1
    ≡ (if length (keep [] three) == 0 then [] else message (keep [] three))
json_text-add_all_example = json_text-add_all three three-IsShort three_few three_fit

abbrev long_value : Bytes
long_value = replicate 600 b'9'

clear-Holds_test : Holds clear []
unfolding members
clear-Holds_test = record {
  json_is = refl;
  labels_is = refl;
  len_is = refl;
  open_is = refl;
  short = tt;
}

no_label : has (codes "a") (labels_of []) ≡ false
unfolding has
no_label = refl

key_fits : length (body []) + length (key (length (body [])) (codes "a")) + 2 < json_size
unfolding members
key_fits = omega arith

value_too_long :
    json_size ≤ length (body []) + length (key (length (body [])) (codes "a")) + length long_value
unfolding members
value_too_long = omega arith

a-IsPlain : IsPlain (codes "a")
unfolding is_plain
a-IsPlain = (refl, tt)

read_json-add_text_example :
    ((add_text clear (codes "a") long_value).1 ≡ true)
    × (count (add_text clear (codes "a") long_value).0 ≡ length {A = Reading} [] + 1)
    × (read_json (json_text (add_text clear (codes "a") long_value).0).1 ≡ none)
read_json-add_text_example =
    read_json-add_text (codes "a") long_value clear-Holds_test tt a-IsPlain no_label (omega arith)
      key_fits value_too_long

abbrev a_then_b : List Reading
a_then_b = (codes "a", codes "1") ∷ (codes "b", codes "2.500") ∷ []

abbrev b_then_a : List Reading
b_then_a = (codes "b", codes "2.500") ∷ (codes "a", codes "1") ∷ (codes "b", codes "7") ∷ []

are_numbers : All (λ v. is_number v ≡ true) (codes "1" ∷ codes "2.500" ∷ codes "7" ∷ [])
unfolding is_number may_end walk go_on is_digit after_digit after_point
are_numbers = (refl, (refl, (refl, tt)))

a-IsMember : IsMember (codes "a", codes "1")
unfolding is_plain
a-IsMember = record { label = (refl, tt); value = are_numbers.0 }

b-IsMember : (v : Bytes) → is_number v ≡ true → IsMember (codes "b", v)
unfolding is_plain
b-IsMember v h = record { label = (refl, tt); value = h }

a_then_b-IsRoomy : IsRoomy a_then_b
unfolding keep has str_eq members member
a_then_b-IsRoomy = record {
  short = (
    record { label = omega arith; value = omega arith },
    (record { label = omega arith; value = omega arith }, tt),
  );
  members = (a-IsMember, (b-IsMember (codes "2.500") are_numbers.1.0, tt));
  any = omega arith;
  rows = omega arith;
  room = omega arith;
}

b_then_a-IsRoomy : IsRoomy b_then_a
unfolding keep has str_eq members member
b_then_a-IsRoomy = record {
  short = (
    record { label = omega arith; value = omega arith },
    (
      record { label = omega arith; value = omega arith },
      (record { label = omega arith; value = omega arith }, tt),
    ),
  );
  members = (
    b-IsMember (codes "2.500") are_numbers.1.0,
    (a-IsMember, (b-IsMember (codes "7") are_numbers.1.1.0, tt)),
  );
  any = omega arith;
  rows = omega arith;
  room = omega arith;
}

read_object-add_all_iff_example :
    (read_object (json_text (add_all clear a_then_b)).1
      ≡ read_object (json_text (add_all clear b_then_a)).1)
    ↔ ((l : Bytes) → find l a_then_b ≡ find l b_then_a)
read_object-add_all_iff_example =
    read_object-add_all_iff a_then_b b_then_a a_then_b-IsRoomy b_then_a-IsRoomy
