-- ===== src/Device.antt =====
-- The running device, from the main loop's start on: its variables in all files, and what happens to
-- it. The tasks of the libraries (WiFi, MQTT, the download, the indicator) and the main loop take
-- turns, and an event is one turn of one of them. A download that succeeds restarts the device, which
-- is no event here.
pub mod Invariant
pub mod Announce
pub mod Raced
pub mod Calm
pub mod Passed
pub mod Delivers
pub mod Reads
pub mod Booted
pub mod Named
pub mod Subscriber
pub mod Lights
pub mod Hears
pub mod Greets
mod Tests
use gplug_mini.Base.{
  ℕ, ◌+◌, ◌/◌, ◌%◌, ◌^◌, Bool, true, false, List, [], ◌∷◌, ◌++◌, Bytes, ◌==◌, if◌then◌else◌,
}
use gplug_mini.App.{App, Effect, Broker, Parsed, pass}
use gplug_mini.Indicator.{Led, operational, updating, indicate, indicate_publish, tick}
use gplug_mini.Net.{Net, MqttEvent, Platform, Request, on_mqtt}
use gplug_mini.Net.Setup.{Mqtt, mqtt_publish_discovery, mqtt_publish_state}
use gplug_mini.Net.Wifi.{WifiEvent, on_wifi}
use gplug_mini.Ota.{Ota, download_begin, download_failed}
use gplug_mini.Source.Uart.{Uart, meter_source_try_next_line}

-- `mqtt` are the topics that `mqtt_start` keeps, `mac` is `mac_str`, `line` the state of the serial line.
pub record Device (Parser : Type 0) : Type 0 where
  pub parser : Parser
  pub app : App
  pub net : Net
  pub led : Led
  pub line : Uart
  pub mqtt : Mqtt
  pub mac : Bytes

-- A pass of the main loop, with what the source delivers and the times, in microseconds, of the pass
-- and of a pulse in it; an event of the client or of WiFi; the download task's start and its failure;
-- a turn of the indicator.
pub data Event : Type 0 where
  looped : Bytes → ℕ → ℕ → Event
  mqtt_event : Platform → MqttEvent → Event
  wifi_event : WifiEvent → Event
  download_begins download_fails led_turn : Event

-- `now_ms`
unfoldable pub now_ms : ℕ → ℕ
now_ms us = (us / 1000) % 2 ^ 32

-- What a pass does, handed to the files that do it: the client, the indicator, the source.
unfoldable pub act : {Parser : Type 0} → ℕ → Device Parser → Effect → Device Parser × List Request
act us d (Effect.discovery topic payload) = (d, mqtt_publish_discovery true topic payload)
act us d (Effect.state payload) = (d, mqtt_publish_state true d.mqtt payload)
act us d Effect.pulse = (record d { led = indicate_publish d.led us }, [])
act us d Effect.next_line = (record d { line = (meter_source_try_next_line d.line).0 }, [])

unfoldable pub acts :
    {Parser : Type 0} → ℕ → Device Parser → List Effect → Device Parser × List Request
acts us d [] = (d, [])
acts us d (e ∷ es) =
    let (d', sent) = act us d e in let (d'', later) = acts us d' es in (d'', sent ++ later)

-- `download_task` up to the download, and behind one that failed, with the indications; each happens
-- only where there is a task that waits or runs.
unfoldable pub begins : {Parser : Type 0} → Device Parser → Device Parser
begins d = if d.net.ota.waiting == 0 then d else record d {
  net = record d.net { ota = (download_begin d.net.ota).0 };
  led = indicate d.led updating;
}

unfoldable pub fails : {Parser : Type 0} → Device Parser → Device Parser
fails d = if d.net.ota.running == 0 then d else record d {
  net = record d.net { ota = download_failed d.net.ota };
  led = indicate d.led operational;
}

module _ {Real Parser : Type 0} (real_text : Real → Bytes)
    (parse : Parser → Bytes → Parser × Parsed Real) where
  -- What the loop sees of the broker.
  abbrev pub seen : Device Parser → Broker
  seen d = record { connected = d.net.connected; session = d.net.session; mac = d.mac }

  unfoldable pub loop_turn : Device Parser → Bytes → ℕ → ℕ → Device Parser × List Request
  loop_turn d chunk us pulse_us =
      let (p, a, effects) = pass real_text parse d.parser d.app chunk (now_ms us) (seen d) in
      acts pulse_us (record d { parser = p; app = a }) effects

  unfoldable pub device_step : Device Parser → Event → Device Parser × List Request
  device_step d (looped chunk us pulse_us) = loop_turn d chunk us pulse_us
  device_step d (mqtt_event p e) =
      let (n, sent) = on_mqtt d.mqtt.status_top d.mqtt.ota_top p d.net e in
      (record d { net = n }, sent)
  device_step d (wifi_event e) = (record d { net = (on_wifi d.net e).0 }, [])
  device_step d download_begins = (begins d, [])
  device_step d download_fails = (fails d, [])
  device_step d led_turn = (record d { led = tick d.led }, [])

  unfoldable pub device_run : Device Parser → List Event → Device Parser × List Request
  device_run d [] = (d, [])
  device_run d (e ∷ es) =
      let (d', sent) = device_step d e in
      let (d'', later) = device_run d' es in (d'', sent ++ later)
