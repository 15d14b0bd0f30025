-- ===== src/Start/Watchdog.antt =====
-- main/app_main.cpp: the reset reason, and the subscription to the task watchdog. The watchdog is
-- ESP-IDF's: `init` is its initialisation, given what settings it runs with already, if any.
use gplug_mini.Base.{
  ℕ, ◌≡◌, ◌⊎◌, refl, arith, Bool, true, false, not, Option, none, some, Bytes, codes, if◌then◌else◌,
  inl, inr,
}
use gplug_mini.Net.Setup.{Esp, esp_ok, esp_invalid_state, esp_failed, is_ok, is_ready}

-- `esp_reset_reason_t`, with one constructor for the reasons that the code does not name.
pub data Reset : Type 0 where
  poweron ext sw panic int_wdt task_wdt wdt brownout deepsleep unnamed : Reset

unfoldable pub reset_name : Reset → Bytes
reset_name poweron = codes "power-on"
reset_name ext = codes "external reset"
reset_name sw = codes "software restart"
reset_name panic = codes "panic"
reset_name int_wdt = codes "interrupt watchdog"
reset_name task_wdt = codes "task watchdog"
reset_name wdt = codes "other watchdog"
reset_name brownout = codes "brownout"
reset_name deepsleep = codes "deep sleep wake"
reset_name unnamed = codes "unknown"

-- The name that is reported tells the reason.
pub reset_name-injective : (r s : Reset) → reset_name r ≡ reset_name s → r ≡ s
unfolding reset_name
reset_name-injective r s h = ground arith

pub record WdtConfig : Type 0 where
  pub timeout_ms : ℕ
  pub idle_core_mask : ℕ
  pub trigger_panic : Bool

-- `cfg` of `watchdog_start`.
abbrev pub wanted : WdtConfig
wanted = record { timeout_ms = 5000; idle_core_mask = 0; trigger_panic = true }

-- The settings that the watchdog runs with afterwards, and whether the main loop is subscribed.
-- `add` is what the subscription comes to.
unfoldable pub watchdog_start :
    (Option WdtConfig → WdtConfig → Esp × Option WdtConfig)
    → Option WdtConfig
    → Esp
    → Option WdtConfig × Bool
watchdog_start init before add =
    let (e, after) = init before wanted in
    if not (is_ready e) then (after, false) else (after, is_ok add)

-- ESP-IDF's documentation of the initialisation: of a watchdog that runs it changes nothing, and
-- says so; otherwise it takes the settings or fails.
pub record InitLaws (init : Option WdtConfig → WdtConfig → Esp × Option WdtConfig) : Type 0 where
  pub again : (w cfg : WdtConfig) → init (some w) cfg ≡ (esp_invalid_state, some w)
  pub fresh :
      (cfg : WdtConfig)
      → (init none cfg ≡ (esp_ok, some cfg)) ⊎ (init none cfg ≡ (esp_failed, none))

-- The settings of a watchdog that ran before, or else those that the code asks for.
abbrev pub in_force : Option WdtConfig → WdtConfig
in_force none = wanted
in_force (some w) = w

-- For an initialisation that keeps to its documentation and a subscription that succeeds: the main
-- loop is watched, with the code's settings only if no watchdog ran before: otherwise the settings
-- are the earlier ones, whatever they are. It is not watched only where there was no watchdog and
-- none could be had.
pub watchdog_start_settings :
    (init : Option WdtConfig → WdtConfig → Esp × Option WdtConfig) (before : Option WdtConfig)
    → InitLaws init
    → (watchdog_start init before esp_ok ≡ (some (in_force before), true))
      ⊎ ((before ≡ none) × (watchdog_start init before esp_ok ≡ (none, false)))
unfolding watchdog_start
watchdog_start_settings init (some w) laws = inl (rw (laws.again w wanted, watchdog_start) refl)
watchdog_start_settings init none laws = elim (laws.fresh wanted) [
  | inl ok ↦ inl (rw (ok, watchdog_start) refl)
  | inr bad ↦ inr (refl, rw (bad, watchdog_start) refl)
]
