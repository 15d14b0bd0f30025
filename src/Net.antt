-- ===== src/Net.antt =====
-- main/net.cpp, the handler of the MQTT client's events. The client is not modelled; what the
-- handler asks of it is a list of requests.
pub mod Session
pub mod Wifi
pub mod Sound
pub mod Setup
pub mod Topics
mod Tests
use gplug_mini.Base.{
  ℕ, ◌+◌, ◌%◌, ◌^◌, Bool, true, false, not, ◌&&◌, List, [], ◌∷◌, Option, none, some, Bytes, codes,
  ◌==◌, if◌then◌else◌, length, strncmp_eq,
}
use gplug_mini.Ota.{Ota, Image, ota_handle_command, ota_mark_valid_on_session}

-- The file's variables, those of ota.cpp with them.
pub record Net : Type 0 where
  pub connected : Bool
  pub session : ℕ
  pub validated : Bool
  pub ota : Ota

pub data MqttEvent : Type 0 where
  mqtt_connected : MqttEvent
  mqtt_disconnected : MqttEvent
  mqtt_data : Bytes → Bytes → MqttEvent
  mqtt_error : MqttEvent
  mqtt_other : MqttEvent

-- A publication with its quality of service and whether it is retained, a subscription, and the
-- request to mark the image valid.
pub data Request : Type 0 where
  publish : Bytes → Bytes → ℕ → Bool → Request
  subscribe : Bytes → ℕ → Request
  mark_valid : Request

-- What the libraries answer while an event is handled: the image's state, whether marking it
-- succeeds, and whether a task can be created.
pub record Platform : Type 0 where
  pub image : Option Image
  pub marked : Bool
  pub created : Bool

module _ (status_top ota_top : Bytes) where
  unfoldable pub on_connected : Platform → Net → Net × List Request
  on_connected p n =
      let (validated, mark) = ota_mark_valid_on_session p.image p.marked n.validated in
      (
        record n { connected = true; session = (n.session + 1) % 2 ^ 32; validated = validated },
        publish status_top (codes "online") 1 true
            ∷ subscribe ota_top 1
            ∷ (if mark then mark_valid ∷ [] else []),
      )

  -- A message of a topic; the topic has no terminating NUL, and is compared over its own length.
  unfoldable pub on_data : Platform → Net → Bytes → Bytes → Net
  on_data p n topic payload =
      if not (length topic == 0) && strncmp_eq (length topic) topic ota_top
      then record n { ota = (ota_handle_command p.created n.ota payload).0 }
      else n

  unfoldable pub on_mqtt : Platform → Net → MqttEvent → Net × List Request
  on_mqtt p n mqtt_connected = on_connected p n
  on_mqtt p n mqtt_disconnected = (record n { connected = false }, [])
  on_mqtt p n (mqtt_data topic payload) = (on_data p n topic payload, [])
  on_mqtt p n mqtt_error = (n, [])
  on_mqtt p n mqtt_other = (n, [])
