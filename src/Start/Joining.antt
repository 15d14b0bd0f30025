-- ===== src/Start/Joining.antt =====
-- main/app_main.cpp and main/net.cpp: a start with a usable configuration, while the network comes and goes.
use gplug_mini.Base.{
  ◌≡◌, refl, ap, ◌∙◌, true, false, not, ◌&&◌, some, if◌then◌else◌, Bool-cases, inl, inr,
}
use gplug_mini.Config.{config_usable}
use gplug_mini.Config.Store.{Nvs, nvs_ok, config_storage_init, config_effective}
use gplug_mini.Net.Setup.{net_stack_init}
use gplug_mini.Net.Wifi.{attempts, losses, has_address, until_address, wifi_wait-attempts}
use gplug_mini.Start.{World, joining_of, looping, joining, start_with, start_up}
use gplug_mini.Start.Provisioned.{raises, start_up_ready, raises-start_with}

module _ (nvs : Nvs) (w : World nvs) (flash : nvs.Flash) where
  -- How the start goes on, and what it does not do.
  pub record Joining : Type 0 where
    pub ends : (start_up nvs w flash).0 ≡ (if has_address w.wifi then looping else joining)
    pub no_portal : raises (start_up nvs w flash).1 ≡ false
    pub tries : attempts (joining_of w).0 ≡ losses (until_address w.wifi)

  -- With a usable configuration and the storage, the network stack, the drivers and the client well:
  -- the device waits until an address comes, and then reaches its loop; until then it tries to join
  -- as often as the station starts or loses the network, however often that is, and it never raises
  -- the portal.
  pub start_up-Joining :
      config_storage_init w.first w.erasable w.second ≡ some (nvs_ok, false)
      → config_usable (config_effective nvs w.ssid w.passphrase w.uri flash) ≡ true
      → (net_stack_init w.netif w.event_loop && w.drivers) ≡ true
      → w.client ≡ true
      → Joining
  unfolding start_with
  start_up-Joining ready usable stack up =
      let same = start_up_ready nvs w flash ready in
      let conf = config_effective nvs w.ssid w.passphrase w.uri flash in
      let waited = wifi_wait-attempts _ w.wifi in
      let raised = raises-start_with nvs w flash conf in
      record {
        ends = elim (Bool-cases (has_address w.wifi)) [
          | inl h ↦ ap (λ r. r.0) same ∙ rw (usable, stack, start_with, waited.0, h, up) refl
          | inr h ↦ ap (λ r. r.0) same ∙ rw (usable, stack, start_with, waited.0, h) refl
        ];
        no_portal = rw same (raised ∙ ap not usable);
        tries = waited.1;
      }
