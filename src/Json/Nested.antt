-- ===== src/Json/Nested.antt =====
-- What the reader of Json makes of an object or an array, from what it makes of the parts.
use gplug_mini.Base.{
  ℕ, zero, suc, ◌+◌, ◌≤◌, ◌<◌, ◌≡◌, refl, ap, ◌∙◌, true, false, List, [], ◌∷◌, ◌++◌, some, Bytes,
  length, length-append, All, arith, append_assoc, ◌*◌,
}
use gplug_mini.Json.{
  Json, Items, Fields, text, number, array, object, no_items, item, no_fields, field, expect,
  is_number, read_json, all_read, is_numeral, is_digit, lead, behind, starts, separated, read_value,
  read_items, read_members,
}
use gplug_mini.Json.Reads.{IsPlain, Stops, read_name-IsPlain, read_value-text, read_value-number}

-- A text that is read as a value with the fuel `d`, whatever stands behind it that no number goes on with.
abbrev pub ReadsAs : ℕ → Bytes → Json → Type 0
ReadsAs d printed v =
    (s : Bytes) (f : ℕ) → d ≤ f → Stops s → read_value f (printed ++ s) ≡ some (v, s)

pub record Member : Type 0 where
  pub name : Bytes
  pub printed : Bytes
  pub value : Json

pub record IsRead (d : ℕ) (m : Member) : Type 0 where
  pub name : IsPlain m.name
  pub value : ReadsAs d m.printed m.value

-- A member, and more of them, each behind a comma.
unfoldable pub one : Member → Bytes → Bytes
one m s = 0x22 ∷ m.name ++ 0x22 ∷ 0x3A ∷ (m.printed ++ s)

unfoldable pub more : List Member → Bytes → Bytes
more [] s = s
more (m ∷ ms) s = 0x2C ∷ one m (more ms s)

unfoldable pub fields : List Member → Fields
fields [] = no_fields
fields (m ∷ ms) = field m.name m.value (fields ms)

more-Stops : (ms : List Member) (s : Bytes) → Stops (more ms (0x7D ∷ s))
unfolding Stops more is_numeral is_digit
more-Stops [] s = refl
more-Stops (m ∷ ms) s = refl

module _ (d : ℕ) where
  read_members-more :
      (ms : List Member) (s : Bytes) (f : ℕ)
      → All (IsRead d) ms
      → length ms + d < f
      → read_members f false (more ms (0x7D ∷ s)) ≡ some (fields ms, s)
  unfolding read_members starts separated expect behind more one fields
  read_members-more ms s zero h k = absurd (omega arith)
  read_members-more [] s (suc f) h k = refl
  read_members-more (m ∷ ms) s (suc f) h k =
      let rest = more ms (0x7D ∷ s) in
      let named = read_name-IsPlain m.name (m.printed ++ rest) h.0.name in
      let valued = h.0.value rest f (omega arith) (more-Stops ms s) in
      let later = read_members-more ms s f h.1 (omega arith) in rw (named, valued, later) refl

  read_members-one :
      (m : Member) (ms : List Member) (s : Bytes) (f : ℕ)
      → All (IsRead d) (m ∷ ms)
      → length ms + d + 1 < f
      → read_members f true (one m (more ms (0x7D ∷ s))) ≡ some (fields (m ∷ ms), s)
  unfolding read_members starts separated one fields
  read_members-one m ms s zero h k = absurd (omega arith)
  read_members-one m ms s (suc f) h k =
      let rest = more ms (0x7D ∷ s) in
      let named = read_name-IsPlain m.name (m.printed ++ rest) h.0.name in
      let valued = h.0.value rest f (omega arith) (more-Stops ms s) in
      let later = read_members-more ms s f h.1 (omega arith) in rw (named, valued, later) refl

  -- An object with these members.
  pub read_value-object :
      (m : Member) (ms : List Member) (s : Bytes) (f : ℕ)
      → All (IsRead d) (m ∷ ms)
      → length ms + d + 3 ≤ f
      → read_value f (0x7B ∷ one m (more ms (0x7D ∷ s))) ≡ some (object (fields (m ∷ ms)), s)
  unfolding read_value lead behind
  read_value-object m ms s zero h k = absurd (omega arith)
  read_value-object m ms s (suc f) h k = rw (read_members-one m ms s f h (omega arith)) refl

one-append : (m : Member) (s t : Bytes) → one m s ++ t ≡ one m (s ++ t)
unfolding one
one-append m s t = simp append_assoc refl

pub length-one-ge : (m : Member) (s : Bytes) → length s ≤ length (one m s)
unfolding one
length-one-ge m s =
    omega (arith, length-append m.name (0x22 ∷ 0x3A ∷ (m.printed ++ s)), length-append m.printed s)

more-append : (ms : List Member) (s t : Bytes) → more ms s ++ t ≡ more ms (s ++ t)
unfolding more
more-append [] s t = refl
more-append (m ∷ ms) s t = rw (one-append m (more ms s) t, more-append ms s t) refl

pub object-ReadsAs :
    (d : ℕ) (m : Member) (ms : List Member)
    → All (IsRead d) (m ∷ ms)
    → ReadsAs (length ms + d + 3) (0x7B ∷ one m (more ms (0x7D ∷ []))) (object (fields (m ∷ ms)))
object-ReadsAs d m ms h s f k l =
    rw (one-append m (more ms (0x7D ∷ [])) s, more-append ms (0x7D ∷ []) s)
      (read_value-object d m ms s f h k)

-- What closes an array, and a value in front of what is left of it.
items-end : (s : Bytes) (f : ℕ) → 1 ≤ f → read_items f false (0x5D ∷ s) ≡ some (no_items, s)
unfolding read_items starts behind
items-end s zero h = absurd (omega arith)
items-end s (suc f) h = refl

items-text :
    {vs : Items} {s : Bytes} (t rest : Bytes) (f : ℕ)
    → IsPlain t
    → 1 ≤ f
    → read_items f false rest ≡ some (vs, s)
    → read_items (suc f) true (0x22 ∷ t ++ 0x22 ∷ rest) ≡ some (item (text t) vs, s)
unfolding read_items starts separated
items-text t rest f h k later = rw (read_value-text t rest f h k, later) refl

items-next :
    {vs : Items} {s : Bytes} (t rest : Bytes) (f : ℕ)
    → IsPlain t
    → 1 ≤ f
    → read_items f false rest ≡ some (vs, s)
    → read_items (suc f) false (0x2C ∷ 0x22 ∷ t ++ 0x22 ∷ rest) ≡ some (item (text t) vs, s)
unfolding read_items starts separated expect
items-next t rest f h k later = rw (read_value-text t rest f h k, later) refl

-- `["t"]`
pub one_text-ReadsAs :
    (t : Bytes)
    → IsPlain t
    → ReadsAs 3 (0x5B ∷ 0x22 ∷ t ++ 0x22 ∷ 0x5D ∷ []) (array (item (text t) no_items))
unfolding read_value lead behind
one_text-ReadsAs t h s zero k l = absurd (omega arith)
one_text-ReadsAs t h s (suc zero) k l = absurd (omega arith)
one_text-ReadsAs t h s (suc (suc f)) k l =
    let inside = items-text t (0x5D ∷ s) f h (omega arith) (items-end s f (omega arith)) in
    rw (append_assoc, inside) refl

-- `[["t","u"]]`
pub pair_in-ReadsAs :
    (t u : Bytes)
    → IsPlain t
    → IsPlain u
    → ReadsAs 6
        (0x5B ∷ 0x5B ∷ 0x22 ∷ t ++ 0x22 ∷ 0x2C ∷ 0x22 ∷ u ++ 0x22 ∷ 0x5D ∷ 0x5D ∷ [])
        (array (item (array (item (text t) (item (text u) no_items))) no_items))
unfolding read_value read_items lead behind starts separated
pair_in-ReadsAs t u h g s (suc (suc (suc (suc (suc f))))) k l =
    let last =
      items-next u (0x5D ∷ 0x5D ∷ s) f g (omega arith) (items-end (0x5D ∷ s) f (omega arith)) in
    let inside =
      items-text t (0x2C ∷ 0x22 ∷ u ++ 0x22 ∷ 0x5D ∷ 0x5D ∷ s) (suc f) h (omega arith) last in
    rw (append_assoc, append_assoc, inside) refl
pair_in-ReadsAs t u h g s _ k l = absurd (omega arith)

-- `"t"`
pub text-ReadsAs : (t : Bytes) → IsPlain t → ReadsAs 1 (0x22 ∷ t ++ 0x22 ∷ []) (text t)
text-ReadsAs t h s f k l = rw append_assoc (read_value-text t s f h k)

pub number-ReadsAs : (n : Bytes) → is_number n ≡ true → ReadsAs 1 n (number n)
number-ReadsAs n h s f k l = read_value-number n s f h l k

-- With more fuel the same is read.
pub ReadsAs-le : (d e : ℕ) (p : Bytes) (v : Json) → d ≤ e → ReadsAs d p v → ReadsAs e p v
ReadsAs-le d e p v h r s f k l = r s f (omega arith) l

-- A text that is an object and nothing else.
pub read_json-object :
    (d : ℕ) (m : Member) (ms : List Member) (p : Bytes)
    → p ≡ 0x7B ∷ one m (more ms (0x7D ∷ []))
    → All (IsRead d) (m ∷ ms)
    → length ms + d + 3 ≤ 2 * length p + 2
    → read_json p ≡ some (object (fields (m ∷ ms)))
unfolding read_json all_read
read_json-object d m ms p e h k =
    let read = read_value-object d m ms [] (2 * length p + 2) h k in
    let whole : read_value (2 * length p + 2) p ≡ some (object (fields (m ∷ ms)), []) =
      ap (read_value (2 * length p + 2)) e ∙ read in
    rw whole refl
