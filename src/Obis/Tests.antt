-- ===== src/Obis/Tests.antt =====
-- The table at codes that meters send.
use gplug_mini.Base.{true, none, some, codes, str_eq, ◌≡◌, ◌↔◌, ◌⊎◌, refl}
use gplug_mini.Obis.{ObisEntry, instant, table, lookup_in, obis_lookup, obis_is_identity}
use gplug_mini.Obis.Lookup.{obis_is_identity_iff}

abbrev power : ObisEntry
power = record {
  obis = codes "1.0.1.7.0.255";
  label = codes "active_power_plus";
  unit = codes "W";
  kind = instant;
}

found : obis_lookup (codes "1.0.1.7.0.255") ≡ some power
unfolding obis_lookup lookup_in table str_eq
found = refl

unknown_test : obis_lookup (codes "9.9.9.9.9.255") ≡ none
unfolding obis_lookup lookup_in table str_eq
unknown_test = refl

obis_is_identity_iff_example : (obis_is_identity (codes "0.0.96.1.1.255") ≡ true) ↔ (
    (codes "0.0.96.1.1.255" ≡ codes "0.0.42.0.0.255")
    ⊎ (codes "0.0.96.1.1.255" ≡ codes "0.0.96.1.0.255")
    ⊎ (codes "0.0.96.1.1.255" ≡ codes "0.0.96.1.1.255"))
obis_is_identity_iff_example = obis_is_identity_iff (codes "0.0.96.1.1.255")
