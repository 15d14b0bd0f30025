-- ===== src/Start/Tests.antt =====
-- A first start into the portal, and the start behind it.
use gplug_mini.Base.{
  codes, strstr, strncmp_eq, ◌≡◌, ◌≢◌, ◌↔◌, ◌⊎◌, refl, inl, true, false, ◌&&◌, [], ◌∷◌, Option,
  none, some,
}
use gplug_mini.Config.{valid_hostname, no_fault, config_usable, config_fault}
use gplug_mini.Config.Store.{nvs_ok, config_load, config_effective, config_storage_init, fallback}
use gplug_mini.Config.Tests.{list_nvs, list_nvs-NvsLaws}
use gplug_mini.Net.Setup.{Esp, esp_ok, esp_invalid_state, net_stack_init}
use gplug_mini.Net.Wifi.{sta_start, sta_disconnected, got_ip, wifi_wait, on_wifi, signals}
use gplug_mini.Portal.{saved}
use gplug_mini.Portal.Tests.{after_save}
use gplug_mini.Portal.Run.Tests.{evening, address, evening_test}
use gplug_mini.Start.{World, joining_of, start_up}
use gplug_mini.Start.Watchdog.{
  poweron, sw, WdtConfig, InitLaws, watchdog_start, watchdog_start_settings,
}
use gplug_mini.Start.Joining.{Joining, start_up-Joining}
use gplug_mini.Start.Provisioned.{raises, start_up-raises, Joins, portal_then_join}

-- A watchdog that can always be had.
abbrev init : Option WdtConfig → WdtConfig → Esp × Option WdtConfig
init none cfg = (esp_ok, some cfg)
init (some w) cfg = (esp_invalid_state, some w)

init-InitLaws : InitLaws init
init-InitLaws = record { again = λ w cfg. refl; fresh = λ cfg. inl refl }

-- The watchdog that the build starts with ESP-IDF's defaults: it reports, and does not reset.
abbrev earlier : WdtConfig
earlier = record { timeout_ms = 5000; idle_core_mask = 1; trigger_panic = false }

watchdog_start_settings_example :
    (watchdog_start init (some earlier) esp_ok ≡ (some earlier, true))
    ⊎ ((some earlier ≡ none) × (watchdog_start init (some earlier) esp_ok ≡ (none, false)))
watchdog_start_settings_example = watchdog_start_settings init (some earlier) init-InitLaws

abbrev new : World list_nvs
new = record {
  reset = poweron;
  first = nvs_ok;
  erasable = true;
  second = nvs_ok;
  erased = [];
  ssid = [];
  passphrase = [];
  uri = [];
  radio = evening;
  netif = esp_ok;
  event_loop = esp_ok;
  drivers = true;
  mac = address;
  wifi = sta_start ∷ sta_disconnected ∷ got_ip ∷ [];
  client = true;
  wdt_init = init;
  wdt_before = some earlier;
  wdt_add = esp_ok;
}

abbrev again : World list_nvs
again = record new { reset = sw }

ready : config_storage_init nvs_ok true nvs_ok ≡ some (nvs_ok, false)
unfolding config_storage_init
ready = refl

bare : config_usable (config_effective list_nvs [] [] [] []) ≡ false
unfolding config_usable config_effective config_load config_fault
bare = refl

stack : (net_stack_init esp_ok esp_ok && true) ≡ true
unfolding net_stack_init
stack = refl

there : (joining_of again).1 ≡ true
unfolding wifi_wait on_wifi signals
there = refl

portal_then_join_example : Joins list_nvs new again [] after_save (saved ∷ [])
portal_then_join_example =
    portal_then_join list_nvs list_nvs-NvsLaws new again [] after_save (saved ∷ []) ready bare
      evening_test ((λ e. cc e), tt) ready stack there refl

start_up-raises_example :
    (raises (start_up list_nvs new []).1 ≡ true)
    ↔ ((config_load list_nvs []).1 ≢ no_fault)
      × (config_usable (fallback list_nvs [] [] []) ≡ false)
start_up-raises_example = start_up-raises list_nvs new [] ready

-- A build with a configuration of its own, and a network that is lost once.
abbrev built_in : World list_nvs
built_in = record new {
  ssid = codes "home";
  passphrase = codes "password";
  uri = codes "mqtt://10.0.0.2";
}

built_in_usable :
    config_usable
      (config_effective list_nvs (codes "home") (codes "password") (codes "mqtt://10.0.0.2") [])
    ≡ true
unfolding config_usable config_effective config_load config_fault strstr strncmp_eq valid_hostname
built_in_usable = refl

start_up-Joining_example : Joining list_nvs built_in []
start_up-Joining_example = start_up-Joining list_nvs built_in [] ready built_in_usable stack refl
