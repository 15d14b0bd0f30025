-- ===== src/App/Tests/Readings.antt =====
-- Values that a meter may report, and a burst that does not decode.
use gplug_mini.Base.{
  ℕ, ◌≡◌, ◌≤◌, ◌<◌, ◌+◌, refl, arith, false, [], ◌∷◌, Bytes, codes, decimal, length, All, c_str,
  str_eq,
}
use gplug_mini.CycleSet.{max_values, json_size}
use gplug_mini.CycleSet.Message.{body}
use gplug_mini.App.{Capture, App}
use gplug_mini.App.Cycle.{registers}
use gplug_mini.App.Serial.{first_some, entry_text, learned}
use gplug_mini.App.Room.{IsPlausible, registers_room}
use gplug_mini.App.Dump.{Shows, diagnose, hex_dump, diagnose-Shows}
use gplug_mini.Source.Replay.{digit}
use gplug_mini.Obis.{obis_lookup, lookup_in, table}
use gplug_mini.App.Tests.{power_of, started, two_values}

pub two_values-IsPlausible : All (IsPlausible decimal) two_values
unfolding decimal
two_values-IsPlausible = (
  record { bytes = (omega arith, tt); size = omega arith },
  (record { bytes = (omega arith, tt); size = omega arith }, tt),
)

registers_room_example :
    (length (registers decimal two_values) ≤ max_values)
    × (length (body (registers decimal two_values)) + 2 < json_size)
registers_room_example = registers_room decimal two_values two_values-IsPlausible

-- A value of the code of the meter's serial.
abbrev pub name_of_meter : Capture ℕ
name_of_meter = record {
  obis = codes "0.0.96.1.0.255";
  numeric = false;
  value = [];
  text = codes "LGZ1";
  real = 0;
  scaler = 0;
}

abbrev unnamed : App
unnamed = record started { serial = [] }

learned_test : learned decimal [] (power_of 1 ∷ name_of_meter ∷ []) ≡ codes "LGZ1"
unfolding first_some entry_text c_str obis_lookup lookup_in table str_eq
learned_test = refl

abbrev noise : Bytes
noise = 0x68 ∷ 0x7E ∷ 0xA0 ∷ 0x01 ∷ []

diagnose-Shows_example : Shows noise
diagnose-Shows_example =
    diagnose-Shows noise (omega arith, (omega arith, (omega arith, (omega arith, tt))))

head_test : (diagnose noise).head ≡ codes "68 7E A0 01 "
unfolding diagnose hex_dump digit
head_test = refl
