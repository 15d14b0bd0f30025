-- ===== src/Discovery.antt =====
-- main/ha_discovery.h and main/ha_discovery.cpp: Home Assistant's discovery messages. A function that
-- fills a buffer gives the text that the buffer then holds, and the length that it returns.
pub mod Payload
pub mod Fits
pub mod Read
mod Tests
use gplug_mini.Base.{
  ℕ, ◌+◌, List, [], ◌∷◌, ◌++◌, Option, none, some, Bytes, String, codes, snprintf, leb, ◌==◌,
  if◌then◌else◌, concat,
}
use gplug_mini.Obis.{ObisEntry, Kind, cumulative, instant}

-- What `snprintf` reports is never negative here.
unfoldable pub written : ℕ → ℕ → ℕ
written n size = if leb size n then 0 else n

unfoldable pub print_to : ℕ → Bytes → Bytes × ℕ
print_to size s = ((snprintf size s).0, written (snprintf size s).1 size)

pub record Classes : Type 0 where
  pub device_class : Bytes
  pub state_class : Bytes

-- `none` is the pair of null pointers.
unfoldable pub classes_for : Kind → Option Classes
classes_for cumulative =
    some (record { device_class = codes "energy"; state_class = codes "total_increasing" })
classes_for instant =
    some (record { device_class = codes "power"; state_class = codes "measurement" })
classes_for _ = none

abbrev pub discovery_topic_text : Bytes → Bytes → Bytes
discovery_topic_text serial label =
    codes "homeassistant/sensor/" ++ (serial ++ (codes "_" ++ (label ++ codes "/config")))

unfoldable pub discovery_topic : ℕ → Bytes → Bytes → Bytes × ℕ
discovery_topic size serial label = print_to size (discovery_topic_text serial label)

abbrev pub state_topic_text : Bytes → Bytes
state_topic_text mac = codes "gplug/" ++ (mac ++ codes "/state")

unfoldable pub state_topic : ℕ → Bytes → Bytes × ℕ
state_topic size mac = print_to size (state_topic_text mac)

abbrev pub status_topic_text : Bytes → Bytes
status_topic_text mac = codes "gplug/" ++ (mac ++ codes "/status")

unfoldable pub status_topic : ℕ → Bytes → Bytes × ℕ
status_topic size mac = print_to size (status_topic_text mac)

-- `"name":"value"`
abbrev pub pair : String → Bytes → Bytes
pair name value = codes "\"" ++ (codes name ++ (codes "\":\"" ++ (value ++ codes "\"")))

-- The pieces of the payload, as the format string of `discovery_payload` lines them up; `state` and
-- `status` are the topics.
unfoldable pub payload_parts : ObisEntry → Classes → Bytes → Bytes → Bytes → Bytes → List Bytes
payload_parts entry c serial mac state status =
    codes "{"
    ∷ pair "name" entry.label
    ∷ codes ","
    ∷ pair "unique_id" (serial ++ (codes "_" ++ entry.label))
    ∷ codes ","
    ∷ pair "state_topic" state
    ∷ codes ","
    ∷ pair "availability_topic" status
    ∷ codes ",\"payload_available\":\"online\",\"payload_not_available\":\"offline\","
    ∷ pair "value_template" (codes "{{ value_json." ++ (entry.label ++ codes " }}"))
    ∷ codes ","
    ∷ pair "unit_of_measurement" entry.unit
    ∷ codes ","
    ∷ pair "device_class" c.device_class
    ∷ codes ","
    ∷ pair "state_class" c.state_class
    ∷ codes ",\"device\":{\"identifiers\":[\"gplug_"
    ∷ serial
    ∷ codes "\"],"
    ∷ pair "name" (codes "gPlug-mini " ++ serial)
    ∷ codes ","
    ∷ pair "manufacturer" (codes "Landis+Gyr")
    ∷ codes ","
    ∷ pair "model" (codes "E450")
    ∷ codes ",\"connections\":[[\"mac\",\""
    ∷ mac
    ∷ codes "\"]]}}"
    ∷ []

abbrev pub payload_text : ObisEntry → Classes → Bytes → Bytes → Bytes → Bytes → Bytes
payload_text entry c serial mac state status =
    concat (payload_parts entry c serial mac state status)

abbrev topic_size : ℕ
topic_size = 96

-- `discovery_payload`, for an entry with classes.
unfoldable pub sensor_payload : ℕ → ObisEntry → Classes → Bytes → Bytes → Bytes × ℕ
sensor_payload size entry c serial mac =
    let (state, state_len) = state_topic topic_size mac in
    let (status, status_len) = status_topic topic_size mac in
    if state_len == 0
    then ([], 0)
    else if status_len == 0
    then ([], 0)
    else print_to size (payload_text entry c serial mac state status)

-- Where nothing is written the text is given as empty.
unfoldable pub discovery_payload : ℕ → ObisEntry → Bytes → Bytes → Bytes × ℕ
discovery_payload size entry serial mac = elim (classes_for entry.kind) [
  | none ↦ ([], 0)
  | some c ↦ sensor_payload size entry c serial mac
]
