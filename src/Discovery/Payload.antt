-- ===== src/Discovery/Payload.antt =====
-- main/ha_discovery.cpp: what a discovery payload says, and when there is one.
use gplug_mini.Base.{
  ℕ, ◌≤◌, ◌<◌, List, some, Bytes, codes, snprintf, length, length-append, ◌≡◌, ◌≢◌, ◌∙◌, arith,
  dec_lt, snprintf-fits, concat, Option-cases, inl, inr, ◌⊎◌,
}
use gplug_mini.Obis.{ObisEntry}
use gplug_mini.Discovery.{
  written, Classes, classes_for, print_to, state_topic, status_topic, state_topic_text,
  status_topic_text, payload_parts, sensor_payload, discovery_payload,
}

pub print_to-fits : (size : ℕ) (s : Bytes) → length s < size → print_to size s ≡ (s, length s)
unfolding print_to written
print_to-fits size s h = rw (snprintf-fits size s h) (ground arith)

print_to-zero : (size : ℕ) (s : Bytes) → size ≤ length s → (print_to size s).1 ≡ 0
unfolding print_to written snprintf
print_to-zero size s h = ground arith

-- A payload's pieces and its text, with the topics that the device uses.
abbrev pub parts_of : ObisEntry → Classes → Bytes → Bytes → List Bytes
parts_of e c serial mac =
    payload_parts e c serial mac (state_topic_text mac) (status_topic_text mac)

abbrev pub payload_of : ObisEntry → Classes → Bytes → Bytes → Bytes
payload_of e c serial mac = concat (parts_of e c serial mac)

length-state-lt : (mac : Bytes) → length (state_topic_text mac) < length (status_topic_text mac)
length-state-lt mac =
    omega (arith, length-append {0} mac (codes "/state"), length-append {0} mac (codes "/status"))

state_topic-fits :
    (mac : Bytes)
    → length (status_topic_text mac) < 96
    → state_topic 96 mac ≡ (state_topic_text mac, length (state_topic_text mac))
unfolding state_topic
state_topic-fits mac h =
    print_to-fits 96 (state_topic_text mac) (omega (arith, length-state-lt mac))

status_topic-fits :
    (mac : Bytes)
    → length (status_topic_text mac) < 96
    → status_topic 96 mac ≡ (status_topic_text mac, length (status_topic_text mac))
unfolding status_topic
status_topic-fits mac h = print_to-fits 96 (status_topic_text mac) h

pub sensor_payload-fits :
    (size : ℕ) (e : ObisEntry) (c : Classes) (serial mac : Bytes)
    → length (status_topic_text mac) < 96
    → sensor_payload size e c serial mac ≡ print_to size (payload_of e c serial mac)
unfolding sensor_payload
sensor_payload-fits size e c serial mac h =
    rw (sensor_payload, state_topic-fits mac h, status_topic-fits mac h) (ground arith)

sensor_payload-refused :
    (size : ℕ) (e : ObisEntry) (c : Classes) (serial mac : Bytes)
    → 96 ≤ length (status_topic_text mac)
    → (sensor_payload size e c serial mac).1 ≡ 0
unfolding sensor_payload status_topic
sensor_payload-refused size e c serial mac h =
    ground (arith, print_to-zero 96 (status_topic_text mac) h)

-- Which of the two happens, for an entry with classes.
sensor_payload_cases :
    (size : ℕ) (e : ObisEntry) (c : Classes) (serial mac : Bytes)
    → (sensor_payload size e c serial mac
        ≡ (payload_of e c serial mac, length (payload_of e c serial mac)))
      ⊎ ((sensor_payload size e c serial mac).1 ≡ 0)
sensor_payload_cases size e c serial mac = elim (dec_lt (length (status_topic_text mac)) 96) [
  | yes h ↦ elim (dec_lt (length (payload_of e c serial mac)) size) [
    | yes k ↦ inl (sensor_payload-fits size e c serial mac h ∙ print_to-fits size _ k)
    | no k ↦
        inr (rw (sensor_payload-fits size e c serial mac h) (print_to-zero size _ (omega arith)))
  ]
  | no h ↦ inr (sensor_payload-refused size e c serial mac (omega arith))
]

-- Where a length other than 0 is returned, the entry is a sensor, and the buffer holds the whole
-- payload of that length: a payload is never cut.
pub discovery_payload_whole :
    (size : ℕ) (e : ObisEntry) (serial mac : Bytes)
    → (discovery_payload size e serial mac).1 ≢ 0
    → (c : Classes) × (classes_for e.kind ≡ some c)
      × (discovery_payload size e serial mac
          ≡ (payload_of e c serial mac, length (payload_of e c serial mac)))
unfolding discovery_payload
discovery_payload_whole size e serial mac h = elim (Option-cases (classes_for e.kind)) [
  | inl n ↦ absurd (h (rw (n, discovery_payload)))
  | inr (c, found) ↦ elim (sensor_payload_cases size e c serial mac) [
    | inl whole ↦ (c, found, rw (found, discovery_payload) whole)
    | inr zero_len ↦ absurd (h (rw (found, discovery_payload) zero_len))
  ]
]
