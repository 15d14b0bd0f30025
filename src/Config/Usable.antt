-- ===== src/Config/Usable.antt =====
-- Which configurations are usable.
use gplug_mini.Base.{
  ◌-◌, ◌≤◌, ◌≡◌, ◌≢◌, ◌↔◌, ◌⊎◌, refl, true, [], ◌∷◌, Bytes, codes, length, get_or, All, Contains,
  strstr_iff, strstr, strncmp_eq, ap, ◌<◌, arith,
}
use gplug_mini.Config.{
  Config, ConfigFault, describe, label_char, label_chars, valid_hostname, config_fault,
  config_usable, ssid_max, passphrase_max, hostname_max,
}

-- A DNS label: letters, digits and hyphens, at most 32, with no hyphen at either end.
pub record IsLabel (h : Bytes) : Type 0 where
  pub size : length h ≤ hostname_max
  pub head : get_or h 0 0 ≢ b'-'
  pub last : get_or h (length h - 1) 0 ≢ b'-'
  pub chars : All (λ c. label_char c ≡ true) h

label_chars_iff : (h : Bytes) → (label_chars h ≡ true) ↔ All (λ c. label_char c ≡ true) h
unfolding label_chars
label_chars_iff [] = (λ _. tt, λ _. refl)
label_chars_iff (c ∷ s) = ground (arith, label_chars_iff s)

-- A host name is accepted exactly if there is none or it is a DNS label.
pub valid_hostname_iff : (h : Bytes) → (valid_hostname h ≡ true) ↔ ((length h ≡ 0) ⊎ IsLabel h)
unfolding valid_hostname
valid_hostname_iff h = ground (arith, label_chars_iff h)

pub record IsUsable (c : Config) : Type 0 where
  pub ssid_some : c.ssid ≢ []
  pub ssid_fits : length c.ssid ≤ ssid_max
  pub passphrase_fits : length c.passphrase ≤ passphrase_max
  pub broker_scheme : Contains (codes "://") c.broker
  pub hostname_valid : (length c.hostname ≡ 0) ⊎ IsLabel c.hostname

strstr-some : (s : Bytes) → strstr s (codes "://") ≡ true → 0 < length s
unfolding strstr strncmp_eq
strstr-some [] h = cc
strstr-some (c ∷ s) h = omega arith

length-some : (s : Bytes) → s ≢ [] → 0 < length s
length-some [] h = absurd (h refl)
length-some (c ∷ s) h = omega arith

-- A configuration is usable exactly if it has an SSID of at most 32 characters, a passphrase of at
-- most 63, which may be empty, a broker URI with a scheme, and no host name or a DNS label.
pub config_usable_iff : (c : Config) → (config_usable c ≡ true) ↔ IsUsable c
unfolding config_usable config_fault
config_usable_iff c = (
  λ h. record {
    ssid_some = λ e. ground (arith, ap length e);
    ssid_fits = ground arith;
    passphrase_fits = ground arith;
    broker_scheme = (strstr_iff c.broker (codes "://")).0 (ground arith);
    hostname_valid = (valid_hostname_iff c.hostname).0 (ground arith);
  },
  λ u. ground (
    arith,
    u.ssid_some,
    u.ssid_fits,
    u.passphrase_fits,
    (strstr_iff c.broker (codes "://")).1 u.broker_scheme,
    (valid_hostname_iff c.hostname).1 u.hostname_valid,
    strstr-some c.broker,
    length-some c.ssid,
  ),
)

-- No two faults are described in the same words.
pub describe-injective : (f g : ConfigFault) → describe f ≡ describe g → f ≡ g
unfolding describe
describe-injective f g h = ground arith
