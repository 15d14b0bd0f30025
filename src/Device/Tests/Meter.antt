-- ===== src/Device/Tests/Meter.antt =====
-- A device that is started, gets a session, and hears one telegram with the meter's serial.
use gplug_mini.Base.{
  Bytes, ℕ, ◌+◌, ◌≡◌, ◌≢◌, ◌⊎◌, refl, arith, true, false, List, [], ◌∷◌, ◌++◌, none, codes, decimal,
  All,
}
use gplug_mini.App.{Capture, Parsed}
use gplug_mini.App.Looks.{Looks}
use gplug_mini.App.Room.{IsPlausible}
use gplug_mini.App.Tests.{power_of}
use gplug_mini.App.Tests.Readings.{name_of_meter}
use gplug_mini.Net.{Platform, mqtt_connected, on_mqtt, on_connected}
use gplug_mini.Net.Setup.{mac_str}
use gplug_mini.Config.{blank}
use gplug_mini.Device.{
  Device, Event, looped, mqtt_event, wifi_event, led_turn, download_begins, device_run, device_step,
}
use gplug_mini.Device.Announce.{retained, connections}
use gplug_mini.Device.Booted.{booted}
use gplug_mini.Device.Passed.{IsSteady}
use gplug_mini.Device.Raced.{publish_looks-raced, behind}
use gplug_mini.Device.Hears.{ear, turns, device_run-ear}
use gplug_mini.Net.Wifi.{sta_disconnected}
use gplug_mini.Device.Lights.{IsOther, device_run-lit}
use gplug_mini.Indicator.{shown, green_light, blue_light}

abbrev pub replies : Platform
replies = record { image = none; marked = false; created = true }

abbrev pub station : Bytes
station = 0x34 ∷ 0x85 ∷ 0x18 ∷ 0x00 ∷ 0x11 ∷ 0x22 ∷ []

-- A parser that reads a serial and a power of three bytes.
abbrev pub meter_parse : ℕ → Bytes → ℕ × Parsed ℕ
meter_parse p (f ∷ c ∷ w ∷ rest) =
    (p + 1, record { captures = name_of_meter ∷ power_of w ∷ []; count = 2; consumed = 3 })
meter_parse p _ = (p, record { captures = []; count = 0; consumed = 0 })

abbrev pub both : List (Capture ℕ)
both = name_of_meter ∷ power_of 230 ∷ []

abbrev connecting : List Event
connecting = mqtt_event replies mqtt_connected ∷ []

abbrev pub telling : List Event
telling = looped (0x7E ∷ 0xA0 ∷ 230 ∷ []) 1000000 1000000 ∷ led_turn ∷ []

abbrev ready : Device ℕ
ready = (device_run decimal meter_parse (booted blank station 0 75 900000) connecting).0

pub both-IsPlausible : All (IsPlausible decimal) both
unfolding decimal
both-IsPlausible = (
  record { bytes = tt; size = omega arith },
  (record { bytes = (omega arith, tt); size = omega arith }, tt),
)

pub telling-IsSteady : All IsSteady telling
unfolding IsSteady
telling-IsSteady = (tt, (tt, tt))

abbrev second_session : Device ℕ
second_session = record ready {
  app = record ready.app { serial = codes "LGZ1" };
  net = record ready.net { session = 2 };
}

abbrev reopened : Looks
reopened = record { connected = true; compared = 1; latched = 2; mac = mac_str station }

unannounced : (second_session.app.discovery_session ≢ 1) × (connections telling ≡ 0)
unfolding device_run device_step on_mqtt on_connected connections
unannounced = (λ e. absurd (omega (arith, e)), refl)

publish_looks-raced_example :
    retained
      (device_run decimal meter_parse
        (behind decimal meter_parse second_session reopened)
        telling).1
    ≡ 0
publish_looks-raced_example =
    publish_looks-raced decimal meter_parse second_session reopened telling refl (omega arith)
      unannounced.0 refl unannounced.1

-- A command that waits for its task.
abbrev commanded : Device ℕ
commanded = record ready {
  net = record ready.net {
    ota = record {
      pending = codes "http://10.0.0.2/gplug.bin";
      downloading = false;
      waiting = 1;
      running = 0;
    };
  };
}

telling-IsOther : All IsOther telling
unfolding IsOther
telling-IsOther = (tt, (tt, tt))

device_run-lit_example :
    let led = (device_run decimal meter_parse commanded (download_begins ∷ telling)).0.led in
    (shown led 2000000 ≡ green_light) ⊎ (shown led 2000000 ≡ blue_light)
device_run-lit_example =
    device_run-lit decimal meter_parse commanded telling 2000000 (λ e. absurd (omega (arith, e)))
      telling-IsOther

-- The same turns, for a device with a session and for one that has none and loses the network.
abbrev bare : Device ℕ
bare = booted blank station 0 75 900000

abbrev unlucky : List Event
unlucky =
    wifi_event sta_disconnected
    ∷ looped (0x7E ∷ 0xA0 ∷ 230 ∷ []) 1000000 1000009
    ∷ looped [] 3300000 3300009
    ∷ []

same_ear : ear ready ≡ ear bare
unfolding device_run device_step on_mqtt on_connected
same_ear = refl

same_turns : turns (telling ++ looped [] 3300000 3300000 ∷ []) ≡ turns unlucky
unfolding turns
same_turns = refl

device_run-ear_example :
    ear (device_run decimal meter_parse ready (telling ++ looped [] 3300000 3300000 ∷ [])).0
    ≡ ear (device_run decimal meter_parse bare unlucky).0
device_run-ear_example =
    device_run-ear decimal meter_parse ready bare (telling ++ looped [] 3300000 3300000 ∷ [])
      unlucky same_ear same_turns
