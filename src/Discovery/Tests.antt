-- ===== src/Discovery/Tests.antt =====
-- The announcement of one energy register.
use gplug_mini.Base.{◌≡◌, ◌≢◌, refl, arith, some, Bytes, codes, str_eq}
use gplug_mini.Obis.{ObisEntry, cumulative, obis_lookup, lookup_in, table}
use gplug_mini.Discovery.{Classes, classes_for, discovery_payload, payload_parts}
use gplug_mini.Discovery.Read.{IsNamed, announcement, discovery_payload-reads}
use gplug_mini.Json.{is_plain, read_json}
use gplug_mini.Json.Reads.{all_plain, all_plain-IsPlain}
use gplug_mini.Discovery.Fits.{discovery_fits}

abbrev serial : Bytes
serial = codes "LGZ1030655933512"

abbrev mac : Bytes
mac = codes "34:85:18:00:11:22"

abbrev energy : ObisEntry
energy = record {
  obis = codes "1.1.1.8.0.255";
  label = codes "active_energy_plus";
  unit = codes "Wh";
  kind = cumulative;
}

abbrev energy_pair : Classes
energy_pair = record { device_class = codes "energy"; state_class = codes "total_increasing" }

energy_found : obis_lookup (codes "1.1.1.8.0.255") ≡ some energy
unfolding obis_lookup lookup_in table str_eq
energy_found = refl

energy_sensor : classes_for energy.kind ≡ some energy_pair
unfolding classes_for
energy_sensor = refl

payload_written : (discovery_payload 768 energy serial mac).1 ≢ 0
unfolding payload_parts
payload_written =
    let fits =
      discovery_fits (codes "1.1.1.8.0.255") serial mac energy_found energy_sensor (omega arith)
        (omega arith) in
    rw (fits.1) (omega arith)

energy-IsNamed : IsNamed energy serial mac
unfolding all_plain is_plain
energy-IsNamed = record {
  label = all_plain-IsPlain energy.label refl;
  unit = all_plain-IsPlain energy.unit refl;
  serial_ = all_plain-IsPlain serial refl;
  address = all_plain-IsPlain mac refl;
}

discovery_payload-reads_example :
    (c : Classes) × (classes_for energy.kind ≡ some c)
    × (read_json (discovery_payload 768 energy serial mac).0
        ≡ some (announcement energy c serial mac))
discovery_payload-reads_example =
    discovery_payload-reads 768 energy serial mac energy-IsNamed payload_written
