-- ===== src/Softap/Identity.antt =====
-- main/provisioning.h: the name of the network and its passphrase.
use gplug_mini.Base.{
  ℕ, ◌+◌, ◌/◌, ◌%◌, ◌<◌, ◌≡◌, refl, ap, arith, [], ◌∷◌, ◌++◌, Bytes, codes, snprintf, drop, get_or,
  take, All,
}
use gplug_mini.Softap.{ap_ssid, ap_passphrase, hex2, lower_digit, ap_ssid_max, ap_passphrase_max}

-- What an owner types: the name without its hyphen.
abbrev pub typed : Bytes → Bytes
typed ssid = codes "gplug" ++ drop 6 ssid

-- In the arrays that `provisioning_run` has for them, both texts are written whole: a name of 12
-- characters, and a passphrase of 11, so that WPA2 takes it, which is the name without its hyphen.
pub ap_passphrase-ap_ssid :
    (mac : Bytes)
    → ((ap_ssid mac (ap_ssid_max + 1)).1 ≡ 12)
      × (ap_passphrase mac (ap_passphrase_max + 1) ≡ (typed (ap_ssid mac (ap_ssid_max + 1)).0, 11))
unfolding ap_ssid ap_passphrase snprintf
ap_passphrase-ap_ssid mac = (refl, refl)

lower_digit-injective : (a b : ℕ) → a < 16 → b < 16 → lower_digit a ≡ lower_digit b → a ≡ b
unfolding lower_digit
lower_digit-injective a b h k e = ground arith

hex2-injective : (a b : ℕ) → a < 256 → b < 256 → hex2 a ≡ hex2 b → a ≡ b
hex2-injective a b h k e =
    let high : lower_digit (a / 16 % 16) ≡ lower_digit (b / 16 % 16) = cc e in
    let low : lower_digit (a % 16) ≡ lower_digit (b % 16) = cc e in
    omega (
      arith,
      lower_digit-injective (a / 16 % 16) (b / 16 % 16) (omega arith) (omega arith) high,
      lower_digit-injective (a % 16) (b % 16) (omega arith) (omega arith) low,
    )

-- Two devices whose last three octets differ never show the same name.
pub ap_ssid-injective :
    (a b : Bytes)
    → All (λ o. o < 256) (get_or a 3 0 ∷ get_or a 4 0 ∷ get_or a 5 0 ∷ [])
    → All (λ o. o < 256) (get_or b 3 0 ∷ get_or b 4 0 ∷ get_or b 5 0 ∷ [])
    → (ap_ssid a (ap_ssid_max + 1)).0 ≡ (ap_ssid b (ap_ssid_max + 1)).0
    → (get_or a 3 0 ≡ get_or b 3 0) × (get_or a 4 0 ≡ get_or b 4 0) × (get_or a 5 0 ≡ get_or b 5 0)
unfolding ap_ssid snprintf
ap_ssid-injective a b h k e =
    let one : hex2 (get_or a 3 0) ≡ hex2 (get_or b 3 0) = ap (λ s. take 2 (drop 6 s)) e in
    let two : hex2 (get_or a 4 0) ≡ hex2 (get_or b 4 0) = ap (λ s. take 2 (drop 8 s)) e in
    let three : hex2 (get_or a 5 0) ≡ hex2 (get_or b 5 0) = ap (λ s. take 2 (drop 10 s)) e in
    (
      hex2-injective _ _ h.0 k.0 one,
      hex2-injective _ _ h.1.0 k.1.0 two,
      hex2-injective _ _ h.1.1.0 k.1.1.0 three,
    )
