-- ===== src/Config/Store.antt =====
-- main/config_nvs.cpp: the configuration in flash. ESP-IDF's NVS is not part of the program: it is
-- the interface `Nvs`, with what its documentation promises in `NvsLaws`.
pub mod RoundTrip
use gplug_mini.Base.{
  ℕ, ◌+◌, ◌-◌, ◌≡◌, ◌≢◌, ◌<◌, Bool, true, false, Option, none, some, [], Bytes, codes, length, take,
  if◌then◌else◌,
}
use gplug_mini.Config.{
  Config, ConfigFault, no_fault, no_ssid, blank, config_fault, config_usable, ssid_max,
  passphrase_max, broker_max, hostname_max, is_none,
}

-- `true` is `ESP_OK`. The capacity of `get_str` counts the terminating NUL.
pub record Nvs : Type 1 where
  pub Flash : Type 0
  pub open_read : Flash → Bool
  pub open_write : Flash → Bool
  pub get_str : Flash → Bytes → ℕ → Option Bytes
  pub set_str : Flash → Bytes → Bytes → Flash × Bool
  pub commit : Flash → Flash × Bool

-- A value that was set is read back where it fits, other keys keep theirs, a commit changes no
-- value, and a namespace that was written to can be opened.
pub record NvsLaws (nvs : Nvs) : Type 0 where
  pub get-set :
      (s t : nvs.Flash) (k v : Bytes) (size : ℕ)
      → nvs.set_str s k v ≡ (t, true)
      → length v < size
      → nvs.get_str t k size ≡ some v
  pub get-set_ne :
      (s t : nvs.Flash) (k j v : Bytes) (size : ℕ)
      → nvs.set_str s k v ≡ (t, true)
      → k ≢ j
      → nvs.get_str t j size ≡ nvs.get_str s j size
  pub get-commit :
      (s t : nvs.Flash) (k : Bytes) (size : ℕ)
      → nvs.commit s ≡ (t, true)
      → nvs.get_str t k size ≡ nvs.get_str s k size
  pub open_read-set :
      (s t : nvs.Flash) (k v : Bytes) → nvs.set_str s k v ≡ (t, true) → nvs.open_read t ≡ true
  pub open_read-commit :
      (s t : nvs.Flash) → nvs.commit s ≡ (t, true) → nvs.open_read t ≡ nvs.open_read s

abbrev pub key_ssid : Bytes
key_ssid = codes "ssid"

abbrev pub key_pass : Bytes
key_pass = codes "pass"

abbrev pub key_broker : Bytes
key_broker = codes "broker"

abbrev pub key_host : Bytes
key_host = codes "host"

-- What `nvs_flash_init` comes to.
pub data NvsInit : Type 0 where
  nvs_ok nvs_no_free_pages nvs_new_version nvs_failed : NvsInit

abbrev unusable : NvsInit → Bool
unusable nvs_no_free_pages = true
unusable nvs_new_version = true
unusable _ = false

-- `config_storage_init`, for the outcome of a first call, of an erasure, and of a call behind that;
-- `none` is an abort. The flag says whether the partition was erased.
unfoldable pub config_storage_init : NvsInit → Bool → NvsInit → Option (NvsInit × Bool)
config_storage_init first erased second =
    if unusable first then (if erased then some (second, true) else none) else some (first, false)

module _ (nvs : Nvs) where
  open nvs use {Flash, open_read, open_write, get_str, set_str, commit}

  unfoldable pub read_str : Flash → Bytes → ℕ → Bytes
  read_str s k size = elim (get_str s k size) [ none ↦ [] | some v ↦ v ]

  unfoldable pub read_config : Flash → Config
  read_config s = record {
    ssid = read_str s key_ssid (ssid_max + 1);
    passphrase = read_str s key_pass (passphrase_max + 1);
    broker = read_str s key_broker (broker_max + 1);
    hostname = read_str s key_host (hostname_max + 1);
  }

  unfoldable pub config_load : Flash → Config × ConfigFault
  config_load s =
      if open_read s then (read_config s, config_fault (read_config s)) else (blank, no_ssid)

  -- `nvs_set_str(…) == ESP_OK && …`
  abbrev pub and_then : Flash × Bool → (Flash → Flash × Bool) → Flash × Bool
  and_then (s, ok) next = if ok then next s else (s, false)

  abbrev pub put_host : Config → Flash → Flash × Bool
  put_host c s = and_then (set_str s key_host c.hostname) commit

  abbrev pub put_broker : Config → Flash → Flash × Bool
  put_broker c s = and_then (set_str s key_broker c.broker) (put_host c)

  abbrev pub put_pass : Config → Flash → Flash × Bool
  put_pass c s = and_then (set_str s key_pass c.passphrase) (put_broker c)

  unfoldable pub write_config : Config → Flash → Flash × Bool
  write_config c s = and_then (set_str s key_ssid c.ssid) (put_pass c)

  unfoldable pub config_save : Config → Flash → Flash × Bool
  config_save c s =
      if config_usable c
      then (if open_write s then write_config c s else (s, false))
      else (s, false)

  -- `strncpy` into a zeroed array of `size + 1` characters.
  abbrev pub fallback : Bytes → Bytes → Bytes → Config
  fallback ssid passphrase uri = record {
    ssid = take ssid_max ssid;
    passphrase = take passphrase_max passphrase;
    broker = take broker_max uri;
    hostname = [];
  }

  -- The build's defaults are arguments.
  unfoldable pub config_effective : Bytes → Bytes → Bytes → Flash → Config
  config_effective ssid passphrase uri s =
      let (stored, fault) = config_load s in
      if is_none fault then stored else fallback ssid passphrase uri
