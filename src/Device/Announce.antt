-- ===== src/Device/Announce.antt =====
-- How often the running device publishes what the broker keeps.
use gplug_mini.Base.{
  ℕ, suc, ◌+◌, ◌*◌, ◌%◌, ◌^◌, ◌≤◌, ◌≡◌, refl, ap, Bool, true, false, List, [], ◌∷◌, ◌++◌, Bytes,
  ◌==◌, if◌then◌else◌, length, arith, Bool-cases, inl, inr,
}
use gplug_mini.App.{App, Effect, Parsed, pass}
use gplug_mini.App.Publish.{discoveries}
use gplug_mini.App.Budget.{budget, pass-IsWithin}
use gplug_mini.App.Passes.{Input}
use gplug_mini.Ota.{ota_mark_valid_on_session}
use gplug_mini.Net.{
  Net, Platform, Request, publish, subscribe, mark_valid, mqtt_connected, mqtt_disconnected,
  mqtt_data, mqtt_error, mqtt_other, on_mqtt, on_connected,
}
use gplug_mini.Net.Session.{on_data-session}
use gplug_mini.Net.Setup.{mqtt_publish_discovery, mqtt_publish_state}
use gplug_mini.Net.Wifi.{WifiEvent, sta_start, sta_disconnected, got_ip, wifi_other, on_wifi}
use gplug_mini.Device.{
  Device, Event, looped, mqtt_event, wifi_event, download_begins, download_fails, led_turn, now_ms,
  act, acts, begins, fails, seen, loop_turn, device_step, device_run,
}
use gplug_mini.Device.Invariant.{acts-Spares}

-- The publications that the broker is asked to keep.
unfoldable pub retained : List Request → ℕ
retained [] = 0
retained (publish topic payload qos true ∷ rs) = suc (retained rs)
retained (_ ∷ rs) = retained rs

-- The sessions that the broker opens.
unfoldable pub connections : List Event → ℕ
connections [] = 0
connections (mqtt_event p mqtt_connected ∷ es) = suc (connections es)
connections (_ ∷ es) = connections es

pub connections-cons :
    (e : Event) (es : List Event) → connections (e ∷ es) ≡ connections (e ∷ []) + connections es
unfolding connections
connections-cons (looped chunk us pulse_us) es = omega arith
connections-cons (mqtt_event p mqtt_connected) es = omega arith
connections-cons (mqtt_event p mqtt_disconnected) es = omega arith
connections-cons (mqtt_event p (mqtt_data topic payload)) es = omega arith
connections-cons (mqtt_event p mqtt_error) es = omega arith
connections-cons (mqtt_event p mqtt_other) es = omega arith
connections-cons (wifi_event e) es = omega arith
connections-cons download_begins es = omega arith
connections-cons download_fails es = omega arith
connections-cons led_turn es = omega arith

retained-append : (xs ys : List Request) → retained (xs ++ ys) ≡ retained xs + retained ys
unfolding retained
retained-append [] ys = omega arith
retained-append (publish t s q true ∷ xs) ys = omega (arith, retained-append xs ys)
retained-append (publish t s q false ∷ xs) ys = retained-append xs ys
retained-append (subscribe t q ∷ xs) ys = retained-append xs ys
retained-append (mark_valid ∷ xs) ys = retained-append xs ys

acts-retained :
    {Parser : Type 0}
    → (us : ℕ) (d : Device Parser) (es : List Effect)
    → retained (acts us d es).1 ≡ length (discoveries es)
unfolding acts act retained discoveries mqtt_publish_discovery mqtt_publish_state
acts-retained us d [] = refl
acts-retained us d (Effect.discovery t s ∷ es) = ap suc (acts-retained us d es)
acts-retained us d (Effect.state s ∷ es) = acts-retained us d es
acts-retained us d (Effect.pulse ∷ es) = acts-retained us (act us d Effect.pulse).0 es
acts-retained us d (Effect.next_line ∷ es) = acts-retained us (act us d Effect.next_line).0 es

-- What is left of the budget of the session that the device is in.
abbrev open_budget : {Parser : Type 0} → Device Parser → ℕ
open_budget d = budget d.app.discovery_session d.net.session

budget-le : (a s : ℕ) → budget a s ≤ 8
budget-le a s = ground arith

no_mark : (b : Bool) → retained (if b then mark_valid ∷ [] else []) ≡ 0
unfolding retained
no_mark true = refl
no_mark false = refl

pub on_wifi-session : (n : Net) (e : WifiEvent) → (on_wifi n e).0.session ≡ n.session
unfolding on_wifi
on_wifi-session n sta_start = refl
on_wifi-session n sta_disconnected = refl
on_wifi-session n got_ip = refl
on_wifi-session n wifi_other = refl

module _ {Real Parser : Type 0} (real_text : Real → Bytes)
    (parse : Parser → Bytes → Parser × Parsed Real) where
  -- One event keeps the account: what it has kept and what is then left of the budget are no more
  -- than what was left before, and nine for a session that opens.
  abbrev IsAccounted : Device Parser → Event → Device Parser × List Request → Type 0
  IsAccounted d e r = retained r.1 + open_budget r.0 ≤ open_budget d + 9 * connections (e ∷ [])

  looped-IsAccounted :
      (d : Device Parser) (chunk : Bytes) (us pulse_us : ℕ)
      → retained (loop_turn real_text parse d chunk us pulse_us).1
          + open_budget (loop_turn real_text parse d chunk us pulse_us).0
        ≤ open_budget d
  unfolding loop_turn
  looped-IsAccounted d chunk us pulse_us =
      let i : Input = record { chunk = chunk; now = now_ms us; broker = seen real_text parse d } in
      let within = pass-IsWithin real_text parse d.parser d.app i in
      let r = pass real_text parse d.parser d.app i.chunk i.now i.broker in
      let next : Device Parser = record d { parser = r.0; app = r.1 } in
      let spares = acts-Spares pulse_us next r.2 in
      let app = ap (λ (a : App). a.discovery_session) spares.0.app in
      let net = ap (λ (n : Net). n.session) spares.0.net in
      rw (acts-retained pulse_us next r.2, app, net) within

  connected-IsAccounted :
      (d : Device Parser) (p : Platform)
      → IsAccounted d
          (mqtt_event p mqtt_connected)
          (device_step real_text parse d (mqtt_event p mqtt_connected))
  unfolding device_step on_mqtt on_connected retained connections
  connected-IsAccounted d p =
      let mark = no_mark (ota_mark_valid_on_session p.image p.marked d.net.validated).1 in
      let left = budget-le d.app.discovery_session ((d.net.session + 1) % 2 ^ 32) in
      omega (arith, mark, left)

  data_IsAccounted :
      (d : Device Parser) (p : Platform) (topic payload : Bytes)
      → IsAccounted d
          (mqtt_event p (mqtt_data topic payload))
          (device_step real_text parse d (mqtt_event p (mqtt_data topic payload)))
  unfolding device_step on_mqtt retained connections
  data_IsAccounted d p topic payload =
      rw (on_data-session d.mqtt.status_top d.mqtt.ota_top p d.net topic payload) (omega arith)

  device_step-IsAccounted :
      (d : Device Parser) (e : Event) → IsAccounted d e (device_step real_text parse d e)
  unfolding device_step on_mqtt retained connections begins fails
  device_step-IsAccounted d (looped chunk us pulse_us) =
      omega (arith, looped-IsAccounted d chunk us pulse_us)
  device_step-IsAccounted d (mqtt_event p mqtt_connected) = connected-IsAccounted d p
  device_step-IsAccounted d (mqtt_event p mqtt_disconnected) = omega arith
  device_step-IsAccounted d (mqtt_event p (mqtt_data topic payload)) =
      data_IsAccounted d p topic payload
  device_step-IsAccounted d (mqtt_event p mqtt_error) = omega arith
  device_step-IsAccounted d (mqtt_event p mqtt_other) = omega arith
  device_step-IsAccounted d (wifi_event e) = rw (on_wifi-session d.net e) (omega arith)
  device_step-IsAccounted d download_begins = elim (Bool-cases (d.net.ota.waiting == 0)) [
    | inl e ↦ rw (e, begins) (omega arith)
    | inr e ↦ rw (e, begins) (omega arith)
  ]
  device_step-IsAccounted d download_fails = elim (Bool-cases (d.net.ota.running == 0)) [
    | inl e ↦ rw (e, fails) (omega arith)
    | inr e ↦ rw (e, fails) (omega arith)
  ]
  device_step-IsAccounted d led_turn = omega arith

  device_run-account :
      (d : Device Parser) (es : List Event)
      → retained (device_run real_text parse d es).1
          + open_budget (device_run real_text parse d es).0
        ≤ open_budget d + 9 * connections es
  unfolding device_run retained
  device_run-account d [] = omega arith
  device_run-account d (e ∷ es) =
      let one = device_step real_text parse d e in
      let later = device_run real_text parse one.0 es in
      let first = device_step-IsAccounted d e in
      let rest = device_run-account one.0 es in
      let sum = retained-append one.1 later.1 in
      let count = connections-cons e es in omega (arith, first, rest, sum, count)

  -- Whatever happens to the running device, in whatever order, it asks the broker to keep at most nine
  -- messages for each session that opens, its eight entities and that it is there, and at most eight
  -- more for the session that it is in at first; none of these if that one was announced.
  pub device_run-retained :
      (d : Device Parser) (es : List Event)
      → retained (device_run real_text parse d es).1
        ≤ (if d.app.discovery_session == d.net.session then 0 else 8) + 9 * connections es
  device_run-retained d es = omega (arith, device_run-account d es)
