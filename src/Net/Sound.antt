-- ===== src/Net/Sound.antt =====
-- main/net.cpp: what the handlers of events keep true of the file's variables.
use gplug_mini.Base.{
  ◌^◌, ◌<◌, not, ◌&&◌, Bytes, ◌==◌, length, arith, Bool-cases, inl, inr, strncmp_eq,
}
use gplug_mini.Net.{
  Net, MqttEvent, Platform, mqtt_connected, mqtt_disconnected, mqtt_data, mqtt_error, mqtt_other,
  on_mqtt, on_connected, on_data,
}
use gplug_mini.Net.Wifi.{WifiEvent, sta_start, sta_disconnected, got_ip, wifi_other, on_wifi}
use gplug_mini.Ota.Trace.{IsSound, command-IsSound}

-- The update's state is sound, and the session's number is one of 32 bits.
pub record IsNet (n : Net) : Type 0 where
  pub session : n.session < 2 ^ 32
  pub ota : IsSound n.ota

on_data-IsNet :
    (status ota_top : Bytes) (p : Platform) (n : Net) (topic payload : Bytes)
    → IsNet n
    → IsNet (on_data status ota_top p n topic payload)
unfolding on_data
on_data-IsNet status ota_top p n topic payload h =
    elim (Bool-cases (not (length topic == 0) && strncmp_eq (length topic) topic ota_top)) [
      | inl e ↦
          rw (e, on_data)
            record { session = h.session; ota = command-IsSound p.created n.ota payload h.ota }
      | inr e ↦ rw (e, on_data) h
    ]

pub on_mqtt-IsNet :
    (status ota_top : Bytes) (p : Platform) (n : Net) (e : MqttEvent)
    → IsNet n
    → IsNet (on_mqtt status ota_top p n e).0
unfolding on_mqtt on_connected
on_mqtt-IsNet status ota_top p n mqtt_connected h = record { session = omega arith; ota = h.ota }
on_mqtt-IsNet status ota_top p n mqtt_disconnected h = record { session = h.session; ota = h.ota }
on_mqtt-IsNet status ota_top p n (mqtt_data topic payload) h =
    on_data-IsNet status ota_top p n topic payload h
on_mqtt-IsNet status ota_top p n mqtt_error h = h
on_mqtt-IsNet status ota_top p n mqtt_other h = h

pub on_wifi-IsNet : (n : Net) (e : WifiEvent) → IsNet n → IsNet (on_wifi n e).0
unfolding on_wifi
on_wifi-IsNet n sta_start h = h
on_wifi-IsNet n sta_disconnected h = record { session = h.session; ota = h.ota }
on_wifi-IsNet n got_ip h = h
on_wifi-IsNet n wifi_other h = h
