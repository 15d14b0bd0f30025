-- ===== src/Device/Reads.antt =====
-- What a subscriber that reads JSON makes of the running device's messages.
use gplug_mini.Base.{
  ℕ, ◌%◌, ◌/◌, ◌<◌, ◌≡◌, refl, true, List, ◌++◌, Option, some, none, Bytes, codes, str_eq,
  if◌then◌else◌, arith, get_or, snprintf,
}
use gplug_mini.Net.Setup.{mac_str}
use gplug_mini.Softap.{lower_digit}
use gplug_mini.Json.{Json, Fields, text, object, no_fields, field, is_plain, read_json}
use gplug_mini.Obis.{ObisEntry, obis_lookup}
use gplug_mini.Discovery.{Classes, classes_for, discovery_topic_text, state_topic_text}
use gplug_mini.Discovery.Payload.{payload_of}
use gplug_mini.Discovery.Read.{IsNamed, announcement, payload_of-reads}
use gplug_mini.CycleSet.Message.{Reading, find}
use gplug_mini.App.Reads.{obis_lookup-IsPlain}
use gplug_mini.CycleSet.Read.{number_under}
use gplug_mini.Json.Reads.{IsPlain}

lower_digit-plain : (d : ℕ) → d < 16 → is_plain (lower_digit d) ≡ true
unfolding is_plain lower_digit
lower_digit-plain d h = ground arith

-- Two digits of an octet in front of what is left.
octet :
    (b : ℕ) {P : Type 0}
    → P
    → (is_plain (lower_digit (b / 16 % 16)) ≡ true) × ((is_plain (lower_digit (b % 16)) ≡ true) × P)
octet b p = (lower_digit-plain _ (omega arith), (lower_digit-plain _ (omega arith), p))

mac_str-IsPlain : (mac : Bytes) → IsPlain (mac_str mac)
unfolding mac_str snprintf is_plain
mac_str-IsPlain mac = octet (get_or mac 0 0) (
  refl,
  octet (get_or mac 1 0) (
    refl,
    octet (get_or mac 2 0) (
      refl,
      octet (get_or mac 3 0) (refl, octet (get_or mac 4 0) (refl, octet (get_or mac 5 0) tt)),
    ),
  ),
)

-- The text of the first field under a name.
unfoldable pub text_in : Bytes → Fields → Option Bytes
text_in l no_fields = none
text_in l (field k (text t) fs) = if str_eq k l then some t else text_in l fs
text_in l (field k _ fs) = if str_eq k l then none else text_in l fs

unfoldable pub text_under : Bytes → Json → Option Bytes
text_under l (object fs) = text_in l fs
text_under l _ = none

-- A message of discovery for an entity, and what it leads a subscriber to: it stands on the entity's
-- topic and reads as its announcement, which names the topic of states and a template for a label, and
-- under that label of what is read there is the register's first reading.
pub record Shown (e : ObisEntry) (serial mac topic : Bytes) (v : Json) (rs : List Reading)
    (sent : Bytes × Bytes) : Type 0 where
  pub classes : Classes
  pub of_kind : classes_for e.kind ≡ some classes
  pub told_on : sent.0 ≡ discovery_topic_text serial e.label
  pub announced : read_json sent.1 ≡ some (announcement e classes serial mac)
  pub topic_is : text_under (codes "state_topic") (announcement e classes serial mac) ≡ some topic
  pub template :
      text_under (codes "value_template") (announcement e classes serial mac)
      ≡ some (codes "{{ value_json." ++ (e.label ++ codes " }}"))
  pub value : number_under e.label v ≡ find e.label rs

pub entity-Shown :
    (code serial mac : Bytes) {e : ObisEntry} {c : Classes} (v : Json) (rs : List Reading)
    → obis_lookup code ≡ some e
    → classes_for e.kind ≡ some c
    → IsPlain serial
    → number_under e.label v ≡ find e.label rs
    → Shown e serial
        (mac_str mac)
        (state_topic_text (mac_str mac))
        v
        rs
        (discovery_topic_text serial e.label, payload_of e c serial (mac_str mac))
unfolding text_under text_in announcement str_eq
entity-Shown code serial mac {e} {c} v rs found sensor plain value =
    let named : IsNamed e serial (mac_str mac) = record {
      label = (obis_lookup-IsPlain code found).0;
      unit = (obis_lookup-IsPlain code found).1;
      serial_ = plain;
      address = mac_str-IsPlain mac;
    } in
    record {
      classes = c;
      of_kind = sensor;
      told_on = refl;
      announced = payload_of-reads e c serial (mac_str mac) named sensor;
      topic_is = refl;
      template = refl;
      value = value;
    }
