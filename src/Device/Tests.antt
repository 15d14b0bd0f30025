-- ===== src/Device/Tests.antt =====
-- An evening of the device: a session, a telegram, a command, a loss of the network.
mod Meter
mod Greeting
use gplug_mini.Base.{
  Bytes, ℕ, ◌+◌, ◌*◌, ◌≤◌, ◌<◌, ◌≡◌, refl, arith, true, false, List, [], ◌∷◌, none, codes, decimal,
  ◌==◌, if◌then◌else◌, All, ◌++◌, drop, length, decimal-pos,
}
use gplug_mini.Aggregator.{cycle_gap_ms, sub32, cycle_ended}
use gplug_mini.CycleSet.Message.{message}
use gplug_mini.Framing.{leading_flags, is_format}
use gplug_mini.App.Loop.{Run}
use gplug_mini.App.Cycle.{registers}
use gplug_mini.App.Collect.{Gathers, all_in, brought, early, bytes_of, last_time}
use gplug_mini.App.Tests.Readings.{two_values-IsPlausible}
use gplug_mini.App.{max_cycle}
use gplug_mini.App.Passes.{Input}
use gplug_mini.App.Tests.{frame_parse, started, two_values, frames-Run}
use gplug_mini.Net.{Platform, mqtt_connected, mqtt_disconnected, mqtt_data, mqtt_error}
use gplug_mini.Net.Wifi.{sta_disconnected, got_ip}
use gplug_mini.Config.{blank}
use gplug_mini.Ota.{idle}
use gplug_mini.Device.{
  Device, Event, looped, mqtt_event, wifi_event, download_begins, download_fails, led_turn, now_ms,
  seen, device_run,
}
use gplug_mini.Device.Invariant.{IsEvent, IsGood}
use gplug_mini.Device.Booted.{booted, booted_run}
use gplug_mini.Device.Announce.{retained, connections, device_run-retained}
use gplug_mini.Device.Passed.{IsSteady, inputs, passing}
use gplug_mini.Device.Delivers.{device_publishes}
use gplug_mini.Device.Calm.{device_run_quiet}

abbrev answers : Platform
answers = record { image = none; marked = false; created = true }

abbrev octets : Bytes
octets = 0x34 ∷ 0x85 ∷ 0x18 ∷ 0x00 ∷ 0x11 ∷ 0x22 ∷ []

abbrev device : Device ℕ
device = booted blank octets 0 75 900000

abbrev before_session : List Event
before_session =
    wifi_event sta_disconnected
    ∷ looped (0x7E ∷ 0xA0 ∷ 230 ∷ []) 1000000 1000000
    ∷ wifi_event got_ip
    ∷ mqtt_event answers mqtt_error
    ∷ looped [] 4000000 4000000
    ∷ led_turn
    ∷ []

abbrev evening : List Event
evening =
    mqtt_event answers mqtt_connected
    ∷ looped (0x7E ∷ 0xA0 ∷ 230 ∷ []) 5000000 5000000
    ∷ looped [] 8000000 8000000
    ∷ mqtt_event answers
        (mqtt_data (codes "gplug/34:85:18:00:11:22/cmd/ota") (codes "http://10.0.0.2/gplug.bin"))
    ∷ download_begins
    ∷ mqtt_event answers mqtt_disconnected
    ∷ download_fails
    ∷ before_session

evening-IsEvent : All IsEvent evening
unfolding IsEvent
evening-IsEvent = (
  tt,
  (
    omega arith,
    (omega arith, (tt, (tt, (tt, (tt, (tt, (omega arith, (tt, (tt, (omega arith, (tt, tt))))))))))),
  ),
)

booted_run_example :
    IsGood (device_run decimal frame_parse (booted blank octets 0 75 900000) evening).0
booted_run_example = booted_run decimal frame_parse blank octets 0 75 900000 evening evening-IsEvent

device_run-retained_example :
    retained (device_run decimal frame_parse device evening).1 ≤ 0 + 9 * connections evening
device_run-retained_example = device_run-retained decimal frame_parse device evening

none_open : connections before_session ≡ 0
unfolding connections
none_open = refl

device_run_quiet_example : (device_run decimal frame_parse device before_session).1 ≡ []
device_run_quiet_example = device_run_quiet decimal frame_parse device before_session refl none_open

abbrev in_session : Device ℕ
in_session = record device {
  mac = codes "34:85:18:00:11:22";
  app = record started { cycle = [] };
  net = record { connected = true; session = 1; validated = true; ota = idle };
}

-- A telegram in two pieces, with a command and its download around them.
abbrev busy : List Event
busy =
    led_turn
    ∷ mqtt_event answers
        (mqtt_data (codes "gplug/34:85:18:00:11:22/cmd/ota") (codes "http://10.0.0.2/gplug.bin"))
    ∷ looped (0x7E ∷ 0x7E ∷ 0xA0 ∷ []) 1000000 1000000
    ∷ download_begins
    ∷ looped [] 1200000 1200000
    ∷ wifi_event got_ip
    ∷ looped (230 ∷ 0x7E ∷ 0xA0 ∷ 231 ∷ []) 1300000 1300000
    ∷ download_fails
    ∷ []

busy-IsSteady : All IsSteady busy
unfolding IsSteady
busy-IsSteady = (tt, (tt, (tt, (tt, (tt, (tt, (tt, (tt, tt))))))))

abbrev busy_inputs : List Input
busy_inputs = inputs (seen decimal frame_parse in_session) busy

busy-Gathers : Gathers 0 0 busy_inputs
unfolding inputs now_ms cycle_ended
busy-Gathers = brought (omega arith) (early refl refl (brought (omega arith) all_in))

busy-Run :
    Run decimal frame_parse 0
      (drop (leading_flags (bytes_of busy_inputs)) (bytes_of busy_inputs))
      2
      two_values
      2
unfolding inputs leading_flags is_format
busy-Run = frames-Run

busy_size : (0 < length (bytes_of busy_inputs)) × (length (bytes_of busy_inputs) ≤ max_cycle)
unfolding inputs
busy_size = (omega arith, omega arith)

busy_gap : cycle_gap_ms ≤ sub32 (now_ms 3300000) (last_time 0 busy_inputs)
unfolding inputs now_ms last_time
busy_gap = omega arith

device_publishes_example :
    passing (device_run decimal frame_parse in_session (busy ++ looped [] 3300000 3300000 ∷ [])).1
    ≡ (if length (registers decimal two_values) == 0
        then []
        else (in_session.mqtt.state_top, message (registers decimal two_values)) ∷ [])
device_publishes_example =
    device_publishes decimal decimal-pos frame_parse in_session busy 3300000 3300000 busy-IsSteady
      refl busy-Gathers busy_size.0 busy_size.1 busy_gap refl (omega arith) (omega arith)
      (omega arith) busy-Run two_values-IsPlausible
