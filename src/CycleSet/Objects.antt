-- ===== src/CycleSet/Objects.antt =====
-- main/aggregator.h: what the message of a cycle says, whatever the order of its members.
use mathlib.Core.Quot
use mathlib.Core.Quot.{Quot, Quot-set}
use mathlib.Core.Option
use gplug_mini.Base.{
  ◌+◌, ◌≤◌, ◌<◌, ◌≡◌, ◌↔◌, ◌⊎◌, inl, inr, refl, sym, ap, subst, ◌∙◌, false, List, [], ◌∷◌, Option,
  none, some, map, Bytes, ◌==◌, if◌then◌else◌, str_eq, str_eq_iff, length, All, arith, Bool-cases,
}
use gplug_mini.CycleSet.{clear, json_text, json_size, max_values}
use gplug_mini.CycleSet.Message.{Reading, labels_of, body, has, keep, find}
use gplug_mini.CycleSet.Cycle.{IsShort, add_all, json_text-add_all}
use gplug_mini.CycleSet.First.{Distinct, keep_first}
use gplug_mini.CycleSet.Read.{IsMember, as_member, says, read_json-message, keep-All}
use gplug_mini.Json.{Json, Fields, text, number, array, object, no_fields, field, read_json}
use gplug_mini.Json.Nested.{fields}

-- The values that an object has under a name, in their order.
unfoldable pub values_in : Bytes → Fields → List Json
values_in l no_fields = []
values_in l (field k v fs) = let rest = values_in l fs in if str_eq k l then v ∷ rest else rest

-- What stands under a name: all its values in an object; what is no object stands for itself.
unfoldable pub under : Bytes → Json → List Json ⊎ Json
under l (object fs) = inl (values_in l fs)
under l (text t) = inr (text t)
under l (number n) = inr (number n)
under l (array vs) = inr (array vs)

-- Two values that differ in nothing but the order of an object's members: under every name both have
-- the same values, as many and in the same order. Nothing that is no object has such a partner but
-- itself.
abbrev pub SameMembers : Json → Json → Type 0
SameMembers v w = (l : Bytes) → under l v ≡ under l w

abbrev pub Object : Type 0
Object = Quot SameMembers

unfoldable the_number : List Json ⊎ Json → Option Bytes
the_number (inl (number n ∷ vs)) = some n
the_number _ = none

number_of : Bytes → Object → Option Bytes
number_of l = Quot.lift (hlevel) (λ v. the_number (under l v)) λ v w h. ap the_number (h l)

-- The object that a text holds.
unfoldable pub read_object : Bytes → Option Object
read_object s = Option.map Quot.mk (read_json s)

some-injective : {A : Type 0} {a b : A} → some a ≡ some b → (fallback : A) → a ≡ b
some-injective e fallback = ap (λ o. elim o [ none ↦ fallback | some x ↦ x ]) e

-- The object of a cycle's first readings.
abbrev object_of : List Reading → Object
object_of rs = Quot.mk (says (keep [] rs))

-- The values of a register of which there is at most one reading.
unfoldable as_values : Option Bytes → List Json
as_values none = []
as_values (some v) = number v ∷ []

values_in-absent :
    (l : Bytes) (rs : List Reading)
    → has l (labels_of rs) ≡ false
    → values_in l (fields (map as_member rs)) ≡ []
unfolding values_in fields has
values_in-absent l [] h = refl
values_in-absent l ((k, v) ∷ rs) h =
    let rest = values_in-absent l rs (ground (arith, h)) in
    let other : str_eq k l ≡ false = ground (arith, h) in rw (other, rest) refl

values_in-find :
    (l : Bytes) (rs : List Reading)
    → Distinct (labels_of rs)
    → values_in l (fields (map as_member rs)) ≡ as_values (find l rs)
unfolding values_in fields find as_values
values_in-find l [] d = refl
values_in-find l ((k, v) ∷ rs) d = elim (Bool-cases (str_eq k l)) [
  | inr e ↦ rw e (values_in-find l rs d.1)
  | inl e ↦
      let same = subst (λ x. has x (labels_of rs) ≡ false) ((str_eq_iff k l).0 e) d.0 in
      rw (e, values_in-absent l rs same) refl
]

under-says :
    (l : Bytes) (rs : List Reading) → under l (says (keep [] rs)) ≡ inl (as_values (find l rs))
unfolding under
under-says l rs =
    let first = keep_first rs in
    ap inl (values_in-find l (keep [] rs) first.0 ∙ ap as_values (first.1 l))

number_of-object_of : (l : Bytes) (rs : List Reading) → number_of l (object_of rs) ≡ find l rs
unfolding number_of the_number as_values
number_of-object_of l rs = ap the_number (under-says l rs) ∙ back (find l rs)
  where
    back : (o : Option Bytes) → the_number (inl (as_values o)) ≡ o
    back none = refl
    back (some v) = refl

-- Readings of a cycle that the class has room for, and of which there are any.
pub record IsRoomy (rs : List Reading) : Type 0 where
  pub short : All IsShort rs
  pub members : All IsMember rs
  pub any : 0 < length (keep [] rs)
  pub rows : length (keep [] rs) ≤ max_values
  pub room : length (body (keep [] rs)) + 2 < json_size

read_object-add_all :
    (rs : List Reading)
    → IsRoomy rs
    → read_object (json_text (add_all clear rs)).1 ≡ some (object_of rs)
unfolding read_object
read_object-add_all rs h =
    let text = json_text-add_all rs h.short h.rows h.room in
    let any : (length (keep [] rs) == 0) ≡ false = ground (arith, h.any) in
    let read = read_json-message (keep [] rs) h.any (keep-All IsMember [] rs tt h.members) in
    rw (text, any, read) refl

-- Two cycles of at least one reading that the class has room for, with names and numbers that JSON can
-- hold, publish messages that read as the same object, up to the order of its members, exactly if
-- every register has the same first reading in both, or none in both.
pub read_object-add_all_iff :
    (rs ss : List Reading)
    → IsRoomy rs
    → IsRoomy ss
    → (read_object (json_text (add_all clear rs)).1 ≡ read_object (json_text (add_all clear ss)).1)
      ↔ ((l : Bytes) → find l rs ≡ find l ss)
read_object-add_all_iff rs ss h k =
    let left = read_object-add_all rs h in
    let right = read_object-add_all ss k in
    (
      λ e l.
          let same : object_of rs ≡ object_of ss =
            some-injective (sym left ∙ e ∙ right) (object_of rs) in
          sym (number_of-object_of l rs) ∙ ap (number_of l) same ∙ number_of-object_of l ss,
      λ f.
          left
          ∙ ap some (
              Quot.sound
                λ l. under-says l rs ∙ ap (λ o. inl (as_values o)) (f l) ∙ sym (under-says l ss))
          ∙ sym right,
    )
