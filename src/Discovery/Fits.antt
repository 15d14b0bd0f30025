-- ===== src/Discovery/Fits.antt =====
-- main/ha_discovery.cpp: the lengths of topics and payloads, against the buffers of `publish_cycle`.
use gplug_mini.Base.{
  ℕ, ◌+◌, ◌*◌, ◌≤◌, ◌<◌, Option, none, some, Bytes, codes, length, length-append, ◌≡◌, refl, arith,
  ap, ◌∙◌, ltb→lt, ltb, Bool, true,
}
use gplug_mini.Obis.{ObisEntry, Kind, cumulative, instant, obis_lookup, table}
use gplug_mini.Obis.Lookup.{obis_lookup-test, all_entries, obis_lookup-label}
use gplug_mini.Discovery.{
  Classes, classes_for, status_topic_text, payload_parts, discovery_payload, discovery_topic,
  discovery_topic_text,
}
use gplug_mini.Discovery.Payload.{payload_of, print_to-fits, sensor_payload-fits}

length-payload :
    (e : ObisEntry) (c : Classes) (serial mac : Bytes)
    → length (payload_of e c serial mac)
      ≤ 430
        + 3 * length e.label
        + length e.unit
        + 3 * length serial
        + 3 * length mac
        + length c.device_class
        + length c.state_class
unfolding payload_parts
length-payload e c serial mac = simp length-append (omega arith)

abbrev fits_unit : ObisEntry → Bool
fits_unit e = ltb (length e.unit) 5

fits_units : all_entries fits_unit table ≡ true
unfolding all_entries table
fits_units = refl

abbrev size_of : Option Classes → ℕ
size_of none = 0
size_of (some c) = length c.device_class + length c.state_class

size_of-classes : (k : Kind) → size_of (classes_for k) ≤ 22
unfolding classes_for
size_of-classes cumulative = omega arith
size_of-classes instant = omega arith
size_of-classes _ = omega arith

length-classes :
    (k : Kind) (c : Classes)
    → classes_for k ≡ some c
    → length c.device_class + length c.state_class ≤ 22
length-classes k c h = omega (arith, size_of-classes k, ap size_of h)

length-status : (mac : Bytes) → length (status_topic_text mac) ≡ 13 + length mac
length-status mac = omega (arith, length-append {0} mac (codes "/status"))

length-topic :
    (serial label : Bytes)
    → length (discovery_topic_text serial label) ≡ 29 + length serial + length label
length-topic serial label = simp length-append (omega arith)

-- For every sensor of the table, a meter serial of at most 31 characters and a MAC address of at
-- most 17, `publish_cycle`'s buffers of 128 and 768 bytes hold the whole topic and the whole payload,
-- so the entity is announced.
pub discovery_fits :
    (code : Bytes) {e : ObisEntry} {c : Classes} (serial mac : Bytes)
    → obis_lookup code ≡ some e
    → classes_for e.kind ≡ some c
    → length serial < 32
    → length mac < 18
    → (discovery_topic 128 serial e.label
        ≡ (discovery_topic_text serial e.label, length (discovery_topic_text serial e.label)))
      × (discovery_payload 768 e serial mac
          ≡ (payload_of e c serial mac, length (payload_of e c serial mac)))
unfolding discovery_topic discovery_payload
discovery_fits code {e} {c} serial mac found sensor s m =
    let label = obis_lookup-label code found in
    let unit : fits_unit e ≡ true = obis_lookup-test fits_unit code fits_units found in
    let unit_size = ltb→lt _ _ unit in
    let classes = length-classes e.kind c sensor in
    let total = length-payload e c serial mac in
    (
      print_to-fits 128 _ (omega (arith, length-topic serial e.label)),
      rw (sensor, discovery_payload)
          (sensor_payload-fits 768 e c serial mac (omega (arith, length-status mac))
            ∙ print_to-fits 768 _ (omega arith)),
    )
