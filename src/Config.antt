-- ===== src/Config.antt =====
-- main/config.h: the device's configuration and its faults. Each `char` array is the text in it.
pub mod Usable
pub mod Store
pub mod Tests
use gplug_mini.Base.{
  in_range, ℕ, ◌-◌, Bool, true, false, not, ◌&&◌, ◌||◌, [], ◌∷◌, Bytes, codes, String, length,
  get_or, strstr, ltb, leb, ◌==◌, if◌then◌else◌,
}

abbrev pub ssid_max : ℕ
ssid_max = 32

abbrev pub passphrase_max : ℕ
passphrase_max = 63

abbrev pub broker_max : ℕ
broker_max = 127

abbrev pub hostname_max : ℕ
hostname_max = 32

pub record Config : Type 0 where
  pub ssid : Bytes
  pub passphrase : Bytes
  pub broker : Bytes
  pub hostname : Bytes

abbrev pub blank : Config
blank = record { ssid = []; passphrase = []; broker = []; hostname = [] }

pub data ConfigFault : Type 0 where
  no_fault unparseable no_ssid ssid_too_long passphrase_too_long : ConfigFault
  no_broker broker_malformed hostname_invalid : ConfigFault

unfoldable pub describe : ConfigFault → Bytes
describe no_fault = codes "valid"
describe unparseable = codes "the submission could not be read as a form"
describe no_ssid = codes "no SSID stored"
describe ssid_too_long = codes "SSID longer than 802.11 permits"
describe passphrase_too_long = codes "passphrase longer than WPA2 permits"
describe no_broker = codes "no broker URI stored"
describe broker_malformed = codes "broker URI has no scheme"
describe hostname_invalid = codes "hostname is not a valid DNS label"

abbrev is_blank : Bytes → Bool
is_blank s = length s == 0

abbrev pub label_char : ℕ → Bool
label_char c = in_range c b'a' b'z' || in_range c b'A' b'Z' || in_range c b'0' b'9' || c == b'-'

-- The loop over the characters.
unfoldable pub label_chars : Bytes → Bool
label_chars [] = true
label_chars (c ∷ s) = if label_char c then label_chars s else false

unfoldable pub valid_hostname : Bytes → Bool
valid_hostname h =
    if is_blank h
    then true
    else if ltb hostname_max (length h)
    then false
    else if get_or h 0 0 == b'-' || get_or h (length h - 1) 0 == b'-'
    then false
    else label_chars h

unfoldable pub config_fault : Config → ConfigFault
config_fault c =
    if is_blank c.ssid
    then no_ssid
    else if ltb ssid_max (length c.ssid)
    then ssid_too_long
    else if ltb passphrase_max (length c.passphrase)
    then passphrase_too_long
    else if is_blank c.broker
    then no_broker
    else if not (strstr c.broker (codes "://"))
    then broker_malformed
    else if not (valid_hostname c.hostname)
    then hostname_invalid
    else no_fault

abbrev pub is_none : ConfigFault → Bool
is_none no_fault = true
is_none _ = false

unfoldable pub config_usable : Config → Bool
config_usable c = is_none (config_fault c)
