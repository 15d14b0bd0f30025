-- ===== src/Discovery/Read.antt =====
-- main/ha_discovery.cpp: what a reader of JSON makes of a discovery payload.
use gplug_mini.Base.{
  ℕ, ◌≤◌, ◌≡◌, ◌≢◌, refl, ap, true, List, [], ◌∷◌, ◌++◌, some, String, Bytes, codes, length,
  append_assoc, All, All-append, arith,
}
use gplug_mini.Obis.{ObisEntry, Kind}
use gplug_mini.Discovery.{
  Classes, classes_for, payload_parts, state_topic_text, status_topic_text, discovery_payload,
}
use gplug_mini.Discovery.Payload.{payload_of, discovery_payload_whole}
use gplug_mini.Json.{
  Json, text, array, object, no_items, item, no_fields, field, is_plain, read_json,
}
use gplug_mini.Json.Reads.{IsPlain, all_plain, all_plain-IsPlain}
use gplug_mini.Json.Nested.{
  Member, IsRead, one, more, fields, text-ReadsAs, one_text-ReadsAs, pair_in-ReadsAs, ReadsAs-le,
  object-ReadsAs, read_json-object, length-one-ge,
}

-- `"name":"value"`
abbrev said : String → Bytes → Member
said name t = record { name = codes name; printed = 0x22 ∷ t ++ 0x22 ∷ []; value = text t }

infixr 4 ◌&◌
abbrev ◌&◌ : {A B : Type 0} → A → B → A × B
h & hs = (h, hs)

said-IsRead :
    (d : ℕ) (name : String) (t : Bytes)
    → 1 ≤ d
    → all_plain (codes name) ≡ true
    → IsPlain t
    → IsRead d (said name t)
said-IsRead d name t l k h = record {
  name = all_plain-IsPlain (codes name) k;
  value = ReadsAs-le 1 d (0x22 ∷ t ++ 0x22 ∷ []) (text t) l (text-ReadsAs t h);
}

plain-append : (s t : Bytes) → all_plain s ≡ true → IsPlain t → IsPlain (s ++ t)
plain-append s t k h = All-append _ s t (all_plain-IsPlain s k) h

append-plain : (s t : Bytes) → IsPlain s → all_plain t ≡ true → IsPlain (s ++ t)
append-plain s t h k = All-append _ s t h (all_plain-IsPlain t k)

classes_for-IsPlain :
    (k : Kind) {c : Classes}
    → classes_for k ≡ some c
    → IsPlain c.device_class × IsPlain c.state_class
unfolding classes_for all_plain is_plain
classes_for-IsPlain k {c} h = (
  all_plain-IsPlain c.device_class (ground (arith, h)),
  all_plain-IsPlain c.state_class (ground (arith, h)),
)

-- The strings that the payload is given hold nothing that JSON would have escaped.
pub record IsNamed (e : ObisEntry) (serial mac : Bytes) : Type 0 where
  pub label : IsPlain e.label
  pub unit : IsPlain e.unit
  pub serial_ : IsPlain serial
  pub address : IsPlain mac

module _ (e : ObisEntry) (c : Classes) (serial mac : Bytes) where
  abbrev identifiers : Member
  identifiers = record {
    name = codes "identifiers";
    printed = 0x5B ∷ 0x22 ∷ (codes "gplug_" ++ serial) ++ 0x22 ∷ 0x5D ∷ [];
    value = array (item (text (codes "gplug_" ++ serial)) no_items);
  }

  abbrev connections : Member
  connections = record {
    name = codes "connections";
    printed =
        0x5B ∷ 0x5B ∷ 0x22 ∷ codes "mac" ++ 0x22 ∷ 0x2C ∷ 0x22 ∷ mac ++ 0x22 ∷ 0x5D ∷ 0x5D ∷ [];
    value = array (item (array (item (text (codes "mac")) (item (text mac) no_items))) no_items);
  }

  abbrev of_device : List Member
  of_device =
      said "name" (codes "gPlug-mini " ++ serial)
      ∷ said "manufacturer" (codes "Landis+Gyr")
      ∷ said "model" (codes "E450")
      ∷ connections
      ∷ []

  abbrev device : Member
  device = record {
    name = codes "device";
    printed = 0x7B ∷ one identifiers (more of_device (0x7D ∷ []));
    value = object (fields (identifiers ∷ of_device));
  }

  -- The members behind the first.
  abbrev of_sensor : List Member
  of_sensor =
      said "unique_id" (serial ++ (codes "_" ++ e.label))
      ∷ said "state_topic" (state_topic_text mac)
      ∷ said "availability_topic" (status_topic_text mac)
      ∷ said "payload_available" (codes "online")
      ∷ said "payload_not_available" (codes "offline")
      ∷ said "value_template" (codes "{{ value_json." ++ (e.label ++ codes " }}"))
      ∷ said "unit_of_measurement" e.unit
      ∷ said "device_class" c.device_class
      ∷ said "state_class" c.state_class
      ∷ device
      ∷ []

  payload_of-members :
      payload_of e c serial mac ≡ 0x7B ∷ one (said "name" e.label) (more of_sensor (0x7D ∷ []))
  unfolding payload_parts one more
  payload_of-members = simp append_assoc refl

  -- The same as a value: what the announcement says.
  unfoldable pub announcement : Json
  announcement = object (
      field (codes "name") (text e.label) (
        field (codes "unique_id") (text (serial ++ (codes "_" ++ e.label))) (
          field (codes "state_topic") (text (state_topic_text mac)) (
            field (codes "availability_topic") (text (status_topic_text mac)) (
              field (codes "payload_available") (text (codes "online")) (
                field (codes "payload_not_available") (text (codes "offline")) (
                  field (codes "value_template")
                    (text (codes "{{ value_json." ++ (e.label ++ codes " }}")))
                    (field (codes "unit_of_measurement") (text e.unit) (
                      field (codes "device_class") (text c.device_class) (
                        field (codes "state_class") (text c.state_class) (
                          field (codes "device")
                            (object (
                              field (codes "identifiers")
                                (array (item (text (codes "gplug_" ++ serial)) no_items))
                                (field (codes "name") (text (codes "gPlug-mini " ++ serial)) (
                                  field (codes "manufacturer") (text (codes "Landis+Gyr")) (
                                    field (codes "model") (text (codes "E450")) (
                                      field (codes "connections")
                                        (array (
                                          item
                                            (array (
                                              item (text (codes "mac")) (item (text mac) no_items)))
                                            no_items))
                                        no_fields))))))
                            no_fields)))))))))))

  module _ (h : IsNamed e serial mac) where
    identifiers-IsRead : IsRead 6 identifiers
    unfolding all_plain is_plain
    identifiers-IsRead = record {
      name = all_plain-IsPlain (codes "identifiers") refl;
      value = ReadsAs-le 3 6 identifiers.printed identifiers.value (omega arith) (
          one_text-ReadsAs (codes "gplug_" ++ serial)
            (plain-append (codes "gplug_") serial refl h.serial_));
    }

    connections-IsRead : IsRead 6 connections
    unfolding all_plain is_plain
    connections-IsRead = record {
      name = all_plain-IsPlain (codes "connections") refl;
      value = pair_in-ReadsAs (codes "mac") mac (all_plain-IsPlain (codes "mac") refl) h.address;
    }

    of_device-IsRead : All (IsRead 6) (identifiers ∷ of_device)
    unfolding all_plain is_plain
    of_device-IsRead =
        identifiers-IsRead
        & said-IsRead 6 "name" (codes "gPlug-mini " ++ serial) (omega arith) refl
            (plain-append (codes "gPlug-mini ") serial refl h.serial_)
        & said-IsRead 6 "manufacturer" (codes "Landis+Gyr") (omega arith) refl
            (all_plain-IsPlain (codes "Landis+Gyr") refl)
        & said-IsRead 6 "model" (codes "E450") (omega arith) refl
            (all_plain-IsPlain (codes "E450") refl)
        & connections-IsRead
        & tt

    device-IsRead : IsRead 13 device
    unfolding all_plain is_plain
    device-IsRead = record {
      name = all_plain-IsPlain (codes "device") refl;
      value = object-ReadsAs 6 identifiers of_device of_device-IsRead;
    }

    gplug-IsPlain : (t : Bytes) → all_plain t ≡ true → IsPlain (codes "gplug/" ++ (mac ++ t))
    unfolding all_plain is_plain
    gplug-IsPlain t k =
        plain-append (codes "gplug/") (mac ++ t) refl (append-plain mac t h.address k)

    of_sensor-IsRead :
        classes_for e.kind ≡ some c → All (IsRead 13) (said "name" e.label ∷ of_sensor)
    unfolding all_plain is_plain
    of_sensor-IsRead k =
        let classes = classes_for-IsPlain e.kind k in
        said-IsRead 13 "name" e.label (omega arith) refl h.label
        & said-IsRead 13 "unique_id" _ (omega arith) refl (
            All-append _ serial (codes "_" ++ e.label) h.serial_
              (plain-append (codes "_") e.label refl h.label))
        & said-IsRead 13 "state_topic" _ (omega arith) refl (gplug-IsPlain (codes "/state") refl)
        & said-IsRead 13 "availability_topic" _ (omega arith) refl
            (gplug-IsPlain (codes "/status") refl)
        & said-IsRead 13 "payload_available" _ (omega arith) refl
            (all_plain-IsPlain (codes "online") refl)
        & said-IsRead 13 "payload_not_available" _ (omega arith) refl
            (all_plain-IsPlain (codes "offline") refl)
        & said-IsRead 13 "value_template" _ (omega arith) refl (
            plain-append (codes "{{ value_json.") (e.label ++ codes " }}") refl
              (append-plain e.label (codes " }}") h.label refl))
        & said-IsRead 13 "unit_of_measurement" e.unit (omega arith) refl h.unit
        & said-IsRead 13 "device_class" c.device_class (omega arith) refl classes.0
        & said-IsRead 13 "state_class" c.state_class (omega arith) refl classes.1
        & device-IsRead
        & tt

    pub payload_of-reads :
        classes_for e.kind ≡ some c → read_json (payload_of e c serial mac) ≡ some announcement
    unfolding announcement payload_parts fields one more
    payload_of-reads k =
        let rest = more of_sensor (0x7D ∷ []) in
        let long = length-one-ge (said "name" e.label) rest in
        let same = ap length payload_of-members in
        read_json-object 13 (said "name" e.label) of_sensor (payload_of e c serial mac)
          payload_of-members (of_sensor-IsRead k) (omega (arith, long, same))

-- A payload that is not refused, of strings that hold no quote, backslash or control character, reads
-- as JSON, as the announcement of the entry: the identity from the meter's serial and the label, the
-- topics of this device, the template that takes the label's value, the unit of the table, the classes
-- of the entry's kind, and the device that the sensor belongs to, of which it gives no version.
pub discovery_payload-reads :
    (size : ℕ) (e : ObisEntry) (serial mac : Bytes)
    → IsNamed e serial mac
    → (discovery_payload size e serial mac).1 ≢ 0
    → (c : Classes) × (classes_for e.kind ≡ some c)
      × (read_json (discovery_payload size e serial mac).0 ≡ some (announcement e c serial mac))
discovery_payload-reads size e serial mac h k =
    let (c, found, whole) = discovery_payload_whole size e serial mac k in
    (c, found, rw whole (payload_of-reads e c serial mac h found))
