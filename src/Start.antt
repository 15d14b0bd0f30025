-- ===== src/Start.antt =====
-- main/app_main.cpp, from the reset to the main loop. What the hardware and the libraries come to is
-- the record `World`.
pub mod Watchdog
pub mod Provisioned
pub mod Joining
mod Tests
use gplug_mini.Base.{
  ℕ, Bool, true, false, not, ◌&&◌, List, [], ◌∷◌, ◌++◌, Option, none, some, Bytes, if◌then◌else◌,
}
use gplug_mini.Config.{Config, blank, config_usable}
use gplug_mini.Config.Store.{Nvs, NvsInit, nvs_ok, config_storage_init, config_effective}
use gplug_mini.Indicator.{Indication, connecting, provisioning, operational}
use gplug_mini.Net.Setup.{Esp, Station, Mqtt, net_stack_init, station, mac_str, mqtt_start}
use gplug_mini.Net.{Net}
use gplug_mini.Net.Wifi.{WifiEvent, WifiRequest, wifi_wait}
use gplug_mini.Ota.{idle}
use gplug_mini.Portal.{Answer, Portal}
use gplug_mini.Portal.Run.{Radio, Run, aborted, unfinished, returned, provisioning_run}
use gplug_mini.Start.Watchdog.{Reset, reset_name, WdtConfig, watchdog_start}

-- The reason of the reset; the outcomes for `config_storage_init`, and the flash as it is when
-- erased; the build's defaults; the portal's surroundings; what the stack and the drivers that are
-- checked come to, the station's address, what happens to the station
-- while the start waits for an address, and what the client's calls that are
-- checked come to; the watchdog.
pub record World (nvs : Nvs) : Type 0 where
  pub reset : Reset
  pub first : NvsInit
  pub erasable : Bool
  pub second : NvsInit
  pub erased : nvs.Flash
  pub ssid : Bytes
  pub passphrase : Bytes
  pub uri : Bytes
  pub radio : Radio
  pub netif : Esp
  pub event_loop : Esp
  pub drivers : Bool
  pub mac : Bytes
  pub wifi : List WifiEvent
  pub client : Bool
  pub wdt_init : Option WdtConfig → WdtConfig → Esp × Option WdtConfig
  pub wdt_before : Option WdtConfig
  pub wdt_add : Esp

-- The wait for an address; the client is not there yet.
abbrev pub joining_of : {nvs : Nvs} → World nvs → List WifiRequest × Bool
joining_of w =
    wifi_wait (record { connected = false; session = 0; validated = false; ota = idle }) w.wifi

-- What the device does on the way: an indication, the reported reason, the portal, the station, the
-- client, the line, the watchdog.
pub data Act : Type 0 where
  show : Indication → Act
  report : Bytes → Act
  portal_up : Act
  join : Station → Act
  connect : Mqtt → Act
  listen : Act
  watch : Option WdtConfig × Bool → Act

-- How the start ends: a failed `ESP_ERROR_CHECK`; a portal that is still up; a restart, with the
-- flash that it finds; a station without an address; the main loop.
pub data Boot (nvs : Nvs) : Type 0 where
  halted : Boot nvs
  in_portal : Boot nvs
  restarting : nvs.Flash → Boot nvs
  joining : Boot nvs
  looping : Boot nvs

module _ (nvs : Nvs) where
  abbrev pub fresh : nvs.Flash → Portal nvs
  fresh flash = record { flash = flash; staged = blank; submitted = false }

  abbrev pub prologue : World nvs → List Act
  prologue w = report (reset_name w.reset) ∷ show connecting ∷ []

  abbrev pub after_portal : Run nvs → Boot nvs
  after_portal aborted = halted
  after_portal unfinished = in_portal
  after_portal (returned p answers b) = restarting p.flash

  abbrev pub online : World nvs → Config → List Act
  online w conf =
      connect (mqtt_start conf (mac_str w.mac))
      ∷ show operational
      ∷ report (reset_name w.reset)
      ∷ listen
      ∷ watch (watchdog_start w.wdt_init w.wdt_before w.wdt_add)
      ∷ []

  -- The start with a configuration.
  unfoldable pub start_with : World nvs → nvs.Flash → Config → Boot nvs × List Act
  start_with w flash conf =
      if not (config_usable conf)
      then (
        after_portal (provisioning_run nvs w.radio (fresh flash)),
        prologue w ++ (show provisioning ∷ portal_up ∷ []),
      )
      else if not (net_stack_init w.netif w.event_loop && w.drivers)
      then (halted, prologue w)
      else if not (joining_of w).1
      then (joining, prologue w ++ (join (station conf) ∷ []))
      else if not w.client
      then (halted, prologue w ++ (join (station conf) ∷ []))
      else (looping, prologue w ++ (join (station conf) ∷ online w conf))

  abbrev pub after_storage : World nvs → nvs.Flash → Option (NvsInit × Bool) → Boot nvs × List Act
  after_storage w flash (some (nvs_ok, true)) =
      start_with w w.erased (config_effective nvs w.ssid w.passphrase w.uri w.erased)
  after_storage w flash (some (nvs_ok, false)) =
      start_with w flash (config_effective nvs w.ssid w.passphrase w.uri flash)
  after_storage w flash _ = (halted, prologue w)

  unfoldable pub start_up : World nvs → nvs.Flash → Boot nvs × List Act
  start_up w flash = after_storage w flash (config_storage_init w.first w.erasable w.second)
