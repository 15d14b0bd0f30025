-- ===== src/Net/Tests.antt =====
-- Two sessions, and a command between them.
use gplug_mini.Base.{
  ◌≡◌, ◌≢◌, ap, true, false, [], ◌∷◌, none, Bytes, codes, IsPrefixOf, strncmp_eq, c_str, refl,
  snprintf,
}
use gplug_mini.Ota.{Ota, idle, url_length, url_shape, ota_url_acceptable, ota_handle_command}
use gplug_mini.Net.{Net, MqttEvent, Platform, mqtt_data, on_mqtt, on_data}
use gplug_mini.Config.{blank}
use gplug_mini.Softap.{lower_digit}
use gplug_mini.Net.Setup.{mac_str}
use gplug_mini.Net.Topics.{Topics, mqtt_start-Topics}
use gplug_mini.Net.Session.{on_mqtt-ota}

abbrev status : Bytes
status = codes "gplug/aa/status"

abbrev orders : Bytes
orders = codes "gplug/aa/cmd/ota"

abbrev plain : Platform
plain = record { image = none; marked = false; created = true }

abbrev start : Net
start = record { connected = false; session = 0; validated = false; ota = idle }

abbrev order : MqttEvent
order = mqtt_data orders (codes "http://10.0.0.2/gplug.bin")

order_changes : (on_mqtt status orders plain start order).0.ota ≢ start.ota
unfolding on_mqtt on_data strncmp_eq ota_handle_command ota_url_acceptable url_length url_shape
    c_str
order_changes h = cc (ap (λ (o : Ota). o.waiting) h)

on_mqtt-ota_example :
    (topic : Bytes) × (payload : Bytes) × (order ≡ mqtt_data topic payload)
    × IsPrefixOf topic orders
on_mqtt-ota_example = on_mqtt-ota status orders plain start order order_changes

abbrev octets : Bytes
octets = 0x34 ∷ 0x85 ∷ 0x18 ∷ 0x00 ∷ 0x11 ∷ 0x22 ∷ []

mac_test : mac_str octets ≡ codes "34:85:18:00:11:22"
unfolding mac_str snprintf lower_digit
mac_test = refl

mqtt_start-Topics_example : Topics blank octets plain start
mqtt_start-Topics_example = mqtt_start-Topics blank octets plain start
