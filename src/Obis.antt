-- ===== src/Obis.antt =====
-- main/obis_map.h and main/obis_map.cpp: which register a code stands for.
pub mod Lookup
mod Tests
use gplug_mini.Base.{
  Bool, true, false, List, [], ◌∷◌, Option, none, some, Bytes, codes, String, str_eq, if◌then◌else◌,
}

pub data Kind : Type 0 where
  unknown identity instant cumulative timestamp : Kind

pub record ObisEntry : Type 0 where
  pub obis : Bytes
  pub label : Bytes
  pub unit : Bytes
  pub kind : Kind

abbrev entry : String → String → String → Kind → ObisEntry
entry o l u k = record { obis = codes o; label = codes l; unit = codes u; kind = k }

unfoldable pub table : List ObisEntry
table =
    entry "0.0.42.0.0.255" "meter_serial" "" identity
    ∷ entry "0.0.96.1.0.255" "meter_serial" "" identity
    ∷ entry "0.0.96.1.1.255" "device_id_2" "" identity
    ∷ entry "0.0.1.0.0.255" "meter_clock" "" timestamp
    ∷ entry "1.0.1.7.0.255" "active_power_plus" "W" instant
    ∷ entry "1.0.2.7.0.255" "active_power_minus" "W" instant
    ∷ entry "1.0.3.7.0.255" "reactive_power_plus" "var" instant
    ∷ entry "1.0.4.7.0.255" "reactive_power_minus" "var" instant
    ∷ entry "1.0.13.7.0.255" "power_factor" "" instant
    ∷ entry "1.1.1.8.0.255" "active_energy_plus" "Wh" cumulative
    ∷ entry "1.1.2.8.0.255" "active_energy_minus" "Wh" cumulative
    ∷ entry "1.1.5.8.0.255" "reactive_energy_q1" "varh" cumulative
    ∷ entry "1.1.6.8.0.255" "reactive_energy_q2" "varh" cumulative
    ∷ entry "1.1.7.8.0.255" "reactive_energy_q3" "varh" cumulative
    ∷ entry "1.1.8.8.0.255" "reactive_energy_q4" "varh" cumulative
    ∷ []

-- The loop over the table; `none` is `nullptr`.
unfoldable pub lookup_in : List ObisEntry → Bytes → Option ObisEntry
lookup_in [] obis = none
lookup_in (e ∷ es) obis = if str_eq e.obis obis then some e else lookup_in es obis

unfoldable pub obis_lookup : Bytes → Option ObisEntry
obis_lookup = lookup_in table

abbrev pub is_identity : Kind → Bool
is_identity identity = true
is_identity _ = false

unfoldable pub obis_is_identity : Bytes → Bool
obis_is_identity obis = elim (obis_lookup obis) [ none ↦ false | some e ↦ is_identity e.kind ]
