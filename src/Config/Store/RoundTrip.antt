-- ===== src/Config/Store/RoundTrip.antt =====
-- main/config_nvs.cpp: saving a configuration, and loading it again.
use gplug_mini.Base.{
  ℕ, ◌≤◌, ◌≡◌, ◌≢◌, ◌<◌, refl, Bool, true, false, Bytes, length, arith, str_eq, str_eq_iff, ◌∙◌, ap,
}
use gplug_mini.Config.{
  Config, ConfigFault, no_fault, config_fault, config_usable, ssid_max, passphrase_max, broker_max,
  hostname_max,
}
use gplug_mini.Config.Store.{
  Nvs, NvsLaws, key_ssid, key_pass, key_broker, key_host, read_str, read_config, config_load,
  and_then, write_config, put_pass, put_broker, put_host, config_save, config_effective,
}

str_ne : (a b : Bytes) → str_eq a b ≡ false → a ≢ b
str_ne a b h e = cc ((str_eq_iff a b).1 e, h)

-- The texts of a configuration stand in arrays that hold them.
pub record FitsArrays (c : Config) : Type 0 where
  pub ssid : length c.ssid ≤ ssid_max
  pub passphrase : length c.passphrase ≤ passphrase_max
  pub broker : length c.broker ≤ broker_max
  pub hostname : length c.hostname ≤ hostname_max

module _ (nvs : Nvs) (laws : NvsLaws nvs) where
  open nvs use {Flash, open_read, open_write, get_str, set_str, commit}
  open laws use {get-set, get-set_ne, get-commit, open_read-set, open_read-commit}

  -- The four writes and the commit of a save that succeeded.
  record Writes (c : Config) (s t : Flash) : Type 0 where
    s1 : Flash
    s2 : Flash
    s3 : Flash
    s4 : Flash
    w1 : set_str s key_ssid c.ssid ≡ (s1, true)
    w2 : set_str s1 key_pass c.passphrase ≡ (s2, true)
    w3 : set_str s2 key_broker c.broker ≡ (s3, true)
    w4 : set_str s3 key_host c.hostname ≡ (s4, true)
    done : commit s4 ≡ (t, true)

  and_then-true :
      (r : Flash × Bool) (f : Flash → Flash × Bool) (t : Flash)
      → and_then nvs r f ≡ (t, true)
      → (s : Flash) × (r ≡ (s, true)) × (f s ≡ (t, true))
  and_then-true (s, true) f t h = (s, refl, h)
  and_then-true (s, false) f t h = cc

  write_config-Writes : (c : Config) (s t : Flash) → write_config nvs c s ≡ (t, true) → Writes c s t
  unfolding write_config
  write_config-Writes c s t h =
      let (s1, w1, h1) = and_then-true (set_str s key_ssid c.ssid) (put_pass nvs c) t h in
      let (s2, w2, h2) = and_then-true (set_str s1 key_pass c.passphrase) (put_broker nvs c) t h1 in
      let (s3, w3, h3) = and_then-true (set_str s2 key_broker c.broker) (put_host nvs c) t h2 in
      let (s4, w4, h4) = and_then-true (set_str s3 key_host c.hostname) commit t h3 in
      record { s1 = s1; s2 = s2; s3 = s3; s4 = s4; w1 = w1; w2 = w2; w3 = w3; w4 = w4; done = h4 }

  abbrev read : Flash → Bytes → ℕ → Bytes
  read = read_str nvs

  read-set :
      (s t : Flash) (k v : Bytes) (size : ℕ)
      → set_str s k v ≡ (t, true)
      → length v < size
      → read t k size ≡ v
  unfolding read_str
  read-set s t k v size w h = rw (get-set s t k v size w h, read_str)

  read-set_ne :
      (s t : Flash) (k j v : Bytes) (size : ℕ)
      → set_str s k v ≡ (t, true)
      → k ≢ j
      → read t j size ≡ read s j size
  unfolding read_str
  read-set_ne s t k j v size w h = rw (get-set_ne s t k j v size w h, read_str)

  read-commit :
      (s t : Flash) (k : Bytes) (size : ℕ) → commit s ≡ (t, true) → read t k size ≡ read s k size
  unfolding read_str
  read-commit s t k size w = rw (get-commit s t k size w, read_str)

  module _ (c : Config) (s t : Flash) (w : Writes c s t) (fits : FitsArrays c) where
    read-ssid : read t key_ssid 33 ≡ c.ssid
    unfolding str_eq
    read-ssid =
        read-commit _ t key_ssid 33 w.done
        ∙ read-set_ne _ _ key_host key_ssid _ 33 w.w4 (str_ne key_host key_ssid refl)
        ∙ read-set_ne _ _ key_broker key_ssid _ 33 w.w3 (str_ne key_broker key_ssid refl)
        ∙ read-set_ne _ _ key_pass key_ssid _ 33 w.w2 (str_ne key_pass key_ssid refl)
        ∙ read-set _ _ key_ssid c.ssid 33 w.w1 (omega (arith, fits.ssid))

    read-pass : read t key_pass 64 ≡ c.passphrase
    unfolding str_eq
    read-pass =
        read-commit _ t key_pass 64 w.done
        ∙ read-set_ne _ _ key_host key_pass _ 64 w.w4 (str_ne key_host key_pass refl)
        ∙ read-set_ne _ _ key_broker key_pass _ 64 w.w3 (str_ne key_broker key_pass refl)
        ∙ read-set _ _ key_pass c.passphrase 64 w.w2 (omega (arith, fits.passphrase))

    read-broker : read t key_broker 128 ≡ c.broker
    unfolding str_eq
    read-broker =
        read-commit _ t key_broker 128 w.done
        ∙ read-set_ne _ _ key_host key_broker _ 128 w.w4 (str_ne key_host key_broker refl)
        ∙ read-set _ _ key_broker c.broker 128 w.w3 (omega (arith, fits.broker))

    read-host : read t key_host 33 ≡ c.hostname
    read-host =
        read-commit _ t key_host 33 w.done
        ∙ read-set _ _ key_host c.hostname 33 w.w4 (omega (arith, fits.hostname))

    read_config-Writes : read_config nvs t ≡ c
    unfolding read_config
    read_config-Writes = λ i. record {
      ssid = read-ssid i;
      passphrase = read-pass i;
      broker = read-broker i;
      hostname = read-host i;
    }

    open-Writes : open_read t ≡ true
    open-Writes = open_read-commit _ t w.done ∙ open_read-set _ _ key_host c.hostname w.w4

  saved :
      (c : Config) (s t : Flash)
      → config_save nvs c s ≡ (t, true)
      → (config_usable c ≡ true) × (write_config nvs c s ≡ (t, true))
  unfolding config_save
  saved c s t h = ground arith

  usable-none : (c : Config) → config_usable c ≡ true → config_fault c ≡ no_fault
  unfolding config_usable
  usable-none c h = ground arith

  -- In an NVS that keeps its laws, a configuration whose texts fit their arrays, once it is
  -- saved, is what `config_load` gives, with no fault; and what the device runs with,
  -- whatever the build's defaults.
  pub config_load-save :
      (c : Config) (s t : Flash) (ssid passphrase uri : Bytes)
      → FitsArrays c
      → config_save nvs c s ≡ (t, true)
      → (config_load nvs t ≡ (c, no_fault)) × (config_effective nvs ssid passphrase uri t ≡ c)
  unfolding config_load config_effective
  config_load-save c s t ssid passphrase uri fits h =
      let (usable, written) = saved c s t h in
      let w = write_config-Writes c s t written in
      let same = read_config-Writes c s t w fits in
      let load : config_load nvs t ≡ (c, no_fault) =
        rw (open-Writes c s t w fits, same, config_load)
          (ap (λ (f : ConfigFault). (c, f)) (usable-none c usable)) in
      (load, rw (load, config_effective))

-- A configuration that is not usable is refused, and the flash stays as it was.
pub config_save-refuses :
    (nvs : Nvs) (c : Config) (s : nvs.Flash)
    → config_usable c ≡ false
    → config_save nvs c s ≡ (s, false)
unfolding config_save
config_save-refuses nvs c s h = rw (h, config_save)
