-- ===== src/Net/Setup.antt =====
-- main/net.cpp: how the network stack, the station and the MQTT client are set up. The drivers are
-- not part of the program: what their calls come to is given, and the records are what they are told.
use gplug_mini.Base.{
  ℕ, Bool, true, false, not, ◌&&◌, List, [], ◌∷◌, ◌++◌, Bytes, codes, ◌==◌, if◌then◌else◌, length,
  take, get_or, snprintf,
}
use gplug_mini.Config.{Config}
use gplug_mini.Discovery.{state_topic, status_topic}
use gplug_mini.Net.{Request, publish}
use gplug_mini.Softap.{hex2}

-- `esp_err_t`, as far as the code tells it apart.
pub data Esp : Type 0 where
  esp_ok esp_invalid_state esp_failed : Esp

abbrev pub is_ok : Esp → Bool
is_ok esp_ok = true
is_ok _ = false

-- `e == ESP_OK || e == ESP_ERR_INVALID_STATE`
abbrev pub is_ready : Esp → Bool
is_ready esp_failed = false
is_ready _ = true

-- Whether the device goes on; otherwise `ESP_ERROR_CHECK` aborts.
unfoldable pub net_stack_init : Esp → Esp → Bool
net_stack_init netif loop = is_ready netif && is_ready loop

pub data AuthMode : Type 0 where
  auth_open auth_wpa2 : AuthMode

-- What `wifi_start_and_wait` tells the driver of the network to join, and of power saving.
pub record Station : Type 0 where
  pub ssid : Bytes
  pub password : Bytes
  pub authmode : AuthMode
  pub pmf_capable : Bool
  pub pmf_required : Bool
  pub power_save : Bool

-- `cfg.sta` has room for 32 octets and 64, which need no NUL.
unfoldable pub station : Config → Station
station conf = record {
  ssid = take 32 conf.ssid;
  password = take 64 conf.passphrase;
  authmode = if length conf.passphrase == 0 then auth_open else auth_wpa2;
  pmf_capable = true;
  pmf_required = false;
  power_save = false;
}

-- `%02x:%02x:%02x:%02x:%02x:%02x`
abbrev mac_digits : Bytes → Bytes
mac_digits mac =
    hex2 (get_or mac 0 0)
    ++ (b':' ∷ hex2 (get_or mac 1 0)
        ++ (b':' ∷ hex2 (get_or mac 2 0)
            ++ (b':' ∷ hex2 (get_or mac 3 0)
                ++ (b':' ∷ hex2 (get_or mac 4 0) ++ (b':' ∷ hex2 (get_or mac 5 0))))))

-- `mac_str`, of 18 characters, for the station's address.
unfoldable pub mac_str : Bytes → Bytes
mac_str mac = (snprintf 18 (mac_digits mac)).0

abbrev pub topic_room : ℕ
topic_room = 96

abbrev pub ota_topic_text : Bytes → Bytes
ota_topic_text mac = codes "gplug/" ++ (mac ++ codes "/cmd/ota")

-- The client's settings, with the last will, and the topics that the file keeps.
pub record Mqtt : Type 0 where
  pub uri : Bytes
  pub client_id : Bytes
  pub will_topic : Bytes
  pub will_message : Bytes
  pub will_qos : ℕ
  pub will_retain : Bool
  pub status_top : Bytes
  pub ota_top : Bytes
  pub state_top : Bytes

unfoldable pub mqtt_start : Config → Bytes → Mqtt
mqtt_start conf mac =
    let status_top = (status_topic topic_room mac).0 in
    record {
      uri = conf.broker;
      client_id = mac;
      will_topic = status_top;
      will_message = codes "offline";
      will_qos = 1;
      will_retain = true;
      status_top = status_top;
      ota_top = (snprintf topic_room (ota_topic_text mac)).0;
      state_top = (state_topic topic_room mac).0;
    }

-- Nothing is asked of a client that there is not.
unfoldable pub mqtt_publish_discovery : Bool → Bytes → Bytes → List Request
mqtt_publish_discovery client topic payload =
    if not client then [] else publish topic payload 1 true ∷ []

unfoldable pub mqtt_publish_state : Bool → Mqtt → Bytes → List Request
mqtt_publish_state client m payload =
    if not client then [] else publish m.state_top payload 0 false ∷ []
