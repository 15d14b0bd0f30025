-- ===== src/Config/Tests.antt =====
-- A configuration saved to a flash that is an association list.
use gplug_mini.Base.{
  ℕ, ◌≡◌, ◌≢◌, ◌↔◌, ◌<◌, refl, ap, arith, Bool, true, false, List, [], ◌∷◌, Option, none, some,
  Bytes, codes, str_eq, str_eq_iff, str_eq_refl, ltb, if◌then◌else◌, length, Bool-cases, inl, inr,
  lt→ltb, strstr, strncmp_eq,
}
use gplug_mini.Config.{Config, no_fault, config_fault, config_usable, valid_hostname, label_chars}
use gplug_mini.Config.Usable.{IsUsable, config_usable_iff}
use gplug_mini.Config.Store.{Nvs, NvsLaws, config_load, config_save, config_effective, write_config}
use gplug_mini.Config.Store.RoundTrip.{FitsArrays, config_load-save}

abbrev Pairs : Type 0
Pairs = List (Bytes × Bytes)

unfoldable pub stored_at : Pairs → Bytes → ℕ → Option Bytes
stored_at [] k size = none
stored_at ((j, v) ∷ s) k size =
    let later = stored_at s k size in
    if str_eq j k then (if ltb (length v) size then some v else none) else later

abbrev written_to : Pairs → Bool
written_to [] = false
written_to (p ∷ s) = true

abbrev pub list_nvs : Nvs
list_nvs = record {
  Flash = Pairs;
  open_read = written_to;
  open_write = λ s. true;
  get_str = stored_at;
  set_str = λ s k v. ((k, v) ∷ s, true);
  commit = λ s. (s, true);
}

flash_eq : {s t : Pairs} → ◌≡◌ {A = Pairs × Bool} (s, true) (t, true) → s ≡ t
flash_eq h = ap (λ (r : Pairs × Bool). r.0) h

stored_at-set :
    (s : Pairs) (k v : Bytes) (size : ℕ) → length v < size → stored_at ((k, v) ∷ s) k size ≡ some v
unfolding stored_at
stored_at-set s k v size h = rw (str_eq_refl k, lt→ltb (length v) size h)

stored_at-set_ne :
    (s : Pairs) (k j v : Bytes) (size : ℕ)
    → k ≢ j
    → stored_at ((k, v) ∷ s) j size ≡ stored_at s j size
unfolding stored_at
stored_at-set_ne s k j v size h = elim (Bool-cases (str_eq k j)) [
  | inl e ↦ absurd (h ((str_eq_iff k j).0 e))
  | inr e ↦ rw e
]

pub list_nvs-NvsLaws : NvsLaws list_nvs
list_nvs-NvsLaws = record {
  get-set = λ s t k v size h l. rw⁻¹ (flash_eq h) (stored_at-set s k v size l);
  get-set_ne = λ s t k j v size h n. rw⁻¹ (flash_eq h) (stored_at-set_ne s k j v size n);
  get-commit = λ s t k size h. rw⁻¹ (flash_eq h) refl;
  open_read-set = λ s t k v h. rw⁻¹ (flash_eq h) refl;
  open_read-commit = λ s t h. rw⁻¹ (flash_eq h) refl;
}

abbrev pub home : Config
home = record {
  ssid = codes "home";
  passphrase = codes "secret";
  broker = codes "mqtt://10.0.0.2:1883";
  hostname = codes "gplug-1";
}

abbrev home_flash : Pairs
home_flash =
    (codes "host", codes "gplug-1")
    ∷ (codes "broker", codes "mqtt://10.0.0.2:1883")
    ∷ (codes "pass", codes "secret")
    ∷ (codes "ssid", codes "home")
    ∷ []

home_saved : config_save list_nvs home [] ≡ (home_flash, true)
unfolding config_save write_config config_usable config_fault valid_hostname label_chars strstr
    strncmp_eq
home_saved = refl

home-FitsArrays : FitsArrays home
home-FitsArrays = record {
  ssid = omega arith;
  passphrase = omega arith;
  broker = omega arith;
  hostname = omega arith;
}

config_load-save_example :
    (config_load list_nvs home_flash ≡ (home, no_fault))
    × (config_effective list_nvs (codes "bench") [] [] home_flash ≡ home)
config_load-save_example =
    config_load-save list_nvs list_nvs-NvsLaws home [] home_flash (codes "bench") [] []
      home-FitsArrays home_saved

config_usable_iff_example : (config_usable home ≡ true) ↔ IsUsable home
config_usable_iff_example = config_usable_iff home
