-- ===== src/Device/Booted.antt =====
-- The device as the main loop finds it at its start.
use gplug_mini.Base.{ℕ, refl, inl, arith, false, List, [], Bytes, All}
use gplug_mini.CycleSet.{clear}
use gplug_mini.CycleSet.Bounds.{clear-IsWithin}
use gplug_mini.Config.{Config}
use gplug_mini.App.{App, Parsed}
use gplug_mini.Indicator.{operational}
use gplug_mini.Net.Setup.{mqtt_start, mac_str}
use gplug_mini.Ota.{idle}
use gplug_mini.Ota.Trace.{no_task}
use gplug_mini.Source.Uart.{uart_start, apply, apply_candidate}
use gplug_mini.Device.{Device, Event, now_ms, device_run}
use gplug_mini.Device.Invariant.{IsEvent, IsGood, device_run-IsGood}

-- The variables of `app_main` and its file at the time `us`.
abbrev pub app_start : ℕ → App
app_start us = record {
  cycle = [];
  last_byte = now_ms us;
  set = clear;
  serial = [];
  discovery_session = 0;
  undecoded = 0;
  values = 0;
}

-- Those of all files, for a configuration, the station's address, a parser, and what the indicator has
-- counted.
abbrev pub booted : {Parser : Type 0} → Config → Bytes → Parser → ℕ → ℕ → Device Parser
booted conf mac parser elapsed us = record {
  parser = parser;
  app = app_start us;
  net = record { connected = false; session = 0; validated = false; ota = idle };
  led = record { current = operational; pulse_until_us = 0; elapsed = elapsed };
  line = (apply uart_start).0;
  mqtt = mqtt_start conf (mac_str mac);
  mac = mac_str mac;
}

module _ {Real Parser : Type 0} (real_text : Real → Bytes)
    (parse : Parser → Bytes → Parser × Parsed Real) (conf : Config) (mac : Bytes) (parser : Parser)
    (elapsed us : ℕ) where
  pub booted-IsGood : IsGood (booted conf mac parser elapsed us)
  booted-IsGood = record {
    app = record {
      cycle_le = omega arith;
      serial_le = omega arith;
      undecoded_le = omega arith;
      set = clear-IsWithin;
    };
    candidate = rw (apply_candidate uart_start) (omega arith);
    net = record { session = omega arith; ota = no_task refl refl };
    shown = inl refl;
  }

  -- From the start of the main loop on, chunks of at most 256 bytes and any other events, in any order
  -- and number, keep: the buffer at 2048 bytes at most, the serial at 31 characters, the undecoded
  -- cycles that are counted at one; the cycle's set within its arrays, with at most 16 labels shorter
  -- than 28 and both `len_` and the text below 512; a candidate that the table of lines has, a
  -- session's number of 32 bits, an update whose tasks find an acceptable URL, and an indication that
  -- is operational or updating, so that the loss of the network is never indicated.
  pub booted_run :
      (es : List Event)
      → All IsEvent es
      → IsGood (device_run real_text parse (booted conf mac parser elapsed us) es).0
  booted_run es h =
      device_run-IsGood real_text parse (booted conf mac parser elapsed us) es h booted-IsGood
