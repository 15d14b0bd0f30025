-- ===== src/Softap/Tests.antt =====
-- One device, and one query.
use gplug_mini.Base.{
  ℕ, true, false, ◌&&◌, ◌⊎◌, none, List, ◌≡◌, refl, [], ◌∷◌, some, Bytes, codes, snprintf,
}
use gplug_mini.Softap.{ap_ssid, lower_digit}
use gplug_mini.Softap.Serve.{Datagram, Served, dns_hijack, dns_hijack-Served}

abbrev mac : Bytes
mac = 0x34 ∷ 0x85 ∷ 0x18 ∷ 0x25 ∷ 0x22 ∷ 0x5C ∷ []

ap_ssid_test : (ap_ssid mac 33).0 ≡ codes "gplug-25225c"
unfolding ap_ssid snprintf lower_digit
ap_ssid_test = refl

abbrev self : Bytes
self = 192 ∷ 168 ∷ 4 ∷ 1 ∷ []

abbrev question : Bytes
question = 1 ∷ 97 ∷ 0 ∷ 0 ∷ 1 ∷ 0 ∷ 1 ∷ []

-- A query, an error, something too short, from three peers.
abbrev asked : List (Datagram ℕ)
asked =
    record { from = 7; received = some (7 ∷ 9 ∷ 1 ∷ 0 ∷ 0 ∷ 1 ∷ 0 ∷ 0 ∷ 0 ∷ 0 ∷ 0 ∷ 0 ∷ question) }
    ∷ record { from = 8; received = none }
    ∷ record { from = 9; received = some (1 ∷ 2 ∷ []) }
    ∷ []

dns_hijack-Served_example :
    (((true && true) ≡ true)
      × ((dns_hijack true true self asked).1 ≡ false)
      × Served self asked (dns_hijack true true self asked).0)
    ⊎ (((true && true) ≡ false) × (dns_hijack true true self asked ≡ ([], true)))
dns_hijack-Served_example = dns_hijack-Served true true self asked refl
