-- ===== src/App/Reads.antt =====
-- What a reader of JSON makes of the state message that main/app_main.cpp publishes.
use gplug_mini.Base.{
  ◌<◌, ◌≡◌, refl, ◌∙◌, Bool, true, ◌&&◌, List, [], ◌∷◌, Option, none, some, Bytes, c_str, take,
  length, All, All-append, arith, Bool-cases, inl, inr,
}
use gplug_mini.CycleSet.Message.{keep, find, message}
use gplug_mini.CycleSet.First.{keep_first}
use gplug_mini.CycleSet.Read.{
  keep-All, number_under, number_in-find, IsMember, says, read_json-message,
}
use gplug_mini.Json.{Json, is_plain, is_number, read_json}
use gplug_mini.Json.Reads.{IsPlain, all_plain, all_plain-IsPlain}
use gplug_mini.Json.Integer.{decimal-number}
use gplug_mini.Obis.{ObisEntry, obis_lookup, table}
use gplug_mini.Obis.Lookup.{all_entries, obis_lookup-test}
use gplug_mini.App.{Capture, raw_from, is_cumulative}
use gplug_mini.App.Values.{reading, readings}
use gplug_mini.App.Cycle.{registers}

abbrev plain_entry : ObisEntry → Bool
plain_entry e = all_plain e.label && all_plain e.unit

plain_entries : all_entries plain_entry table ≡ true
unfolding table all_entries all_plain is_plain
plain_entries = refl

-- Neither a label nor a unit of the table holds a character that JSON would have escaped.
pub obis_lookup-IsPlain :
    (c : Bytes) {e : ObisEntry} → obis_lookup c ≡ some e → IsPlain e.label × IsPlain e.unit
obis_lookup-IsPlain c {e} f =
    let t : plain_entry e ≡ true = obis_lookup-test plain_entry c plain_entries f in
    (all_plain-IsPlain e.label (ground (arith, t)), all_plain-IsPlain e.unit (ground (arith, t)))

module _ {Real : Type 0} (real_text : Real → Bytes)
    (real_number : (x : Real) → is_number (real_text x) ≡ true) where
  reading-IsMember :
      (o : Option ObisEntry) (c : Capture Real)
      → ((e : ObisEntry) → o ≡ some e → IsPlain e.label)
      → All IsMember (reading real_text o c)
  unfolding reading
  reading-IsMember none c h = tt
  reading-IsMember (some e) c h = elim (Bool-cases c.numeric) [
    | inl n ↦ elim (Bool-cases (is_cumulative e.kind)) [
      | inl k ↦
          rw (n, k, reading)
            (record { label = h e refl; value = decimal-number (raw_from 0 c.value) }, tt)
      | inr k ↦ rw (n, k, reading) (record { label = h e refl; value = real_number c.real }, tt)
    ]
    | inr n ↦ rw (n, reading) tt
  ]

  readings-IsMember : (cs : List (Capture Real)) → All IsMember (readings real_text cs)
  unfolding readings
  readings-IsMember [] = tt
  readings-IsMember (c ∷ cs) =
      let code = c_str (take 39 c.obis) in
      All-append IsMember (reading real_text (obis_lookup code) c) (readings real_text cs)
        (reading-IsMember (obis_lookup code) c (λ e f. (obis_lookup-IsPlain code f).0))
        (readings-IsMember cs)

  -- What is read of the message of a cycle's registers: an object that has under each name the
  -- first reading of the cycle under it.
  pub registers-read :
      (cs : List (Capture Real))
      → 0 < length (registers real_text cs)
      → (v : Json) × (read_json (message (registers real_text cs)) ≡ some v)
        × ((l : Bytes) → number_under l v ≡ find l (readings real_text cs))
  unfolding number_under
  registers-read cs k =
      let rs = readings real_text cs in
      let members = keep-All IsMember [] rs tt (readings-IsMember cs) in
      (
        says (keep [] rs),
        read_json-message (keep [] rs) k members,
        λ l. number_in-find l (keep [] rs) ∙ (keep_first rs).1 l,
      )
