-- ===== src/Device/Calm.antt =====
-- The running device without a broker.
use gplug_mini.Base.{
  ℕ, ◌≡◌, refl, ap, ◌∙◌, false, not, ◌&&◌, List, [], ◌∷◌, Bytes, ◌==◌, length, arith, Bool-cases,
  inl, inr, strncmp_eq,
}
use gplug_mini.App.{Effect, Parsed, pass}
use gplug_mini.App.Publish.{states, discoveries}
use gplug_mini.App.Budget.{pass_silent}
use gplug_mini.App.Passes.{Input}
use gplug_mini.Net.{
  Net, Platform, Request, mqtt_connected, mqtt_disconnected, mqtt_data, mqtt_error, mqtt_other,
  on_mqtt, on_data,
}
use gplug_mini.Net.Wifi.{WifiEvent, sta_start, sta_disconnected, got_ip, wifi_other, on_wifi}
use gplug_mini.Device.{
  Device, Event, looped, mqtt_event, wifi_event, download_begins, download_fails, led_turn, now_ms,
  act, acts, begins, fails, seen, loop_turn, device_step, device_run,
}
use gplug_mini.Device.Invariant.{acts-Spares}
use gplug_mini.Device.Announce.{connections, connections-cons}

-- Effects among which there is no message ask nothing of the client.
acts_quiet :
    {Parser : Type 0}
    → (us : ℕ) (d : Device Parser) (es : List Effect) → states es ≡ []
    → discoveries es ≡ []
    → (acts us d es).1 ≡ []
unfolding acts act states discoveries
acts_quiet us d [] h k = refl
acts_quiet us d (Effect.discovery t s ∷ es) h k = cc k
acts_quiet us d (Effect.state s ∷ es) h k = cc h
acts_quiet us d (Effect.pulse ∷ es) h k = acts_quiet us (act us d Effect.pulse).0 es h k
acts_quiet us d (Effect.next_line ∷ es) h k = acts_quiet us (act us d Effect.next_line).0 es h k

-- Still without a session, and nothing asked of the client.
IsQuiet : {Parser : Type 0} → Device Parser × List Request → Type 0
IsQuiet r = (r.0.net.connected ≡ false) × (r.1 ≡ [])

pub on_data-connected :
    (status ota_top : Bytes) (p : Platform) (n : Net) (topic payload : Bytes)
    → (on_data status ota_top p n topic payload).connected ≡ n.connected
unfolding on_data
on_data-connected status ota_top p n topic payload =
    elim (Bool-cases (not (length topic == 0) && strncmp_eq (length topic) topic ota_top)) [
      | inl e ↦ rw (e, on_data) refl
      | inr e ↦ rw (e, on_data) refl
    ]

on_wifi-connected :
    (n : Net) (e : WifiEvent) → n.connected ≡ false → (on_wifi n e).0.connected ≡ false
unfolding on_wifi
on_wifi-connected n sta_start h = h
on_wifi-connected n sta_disconnected h = refl
on_wifi-connected n got_ip h = h
on_wifi-connected n wifi_other h = h

module _ {Real Parser : Type 0} (real_text : Real → Bytes)
    (parse : Parser → Bytes → Parser × Parsed Real) where
  looped-IsQuiet :
      (d : Device Parser) (chunk : Bytes) (us pulse_us : ℕ)
      → d.net.connected ≡ false
      → IsQuiet (loop_turn real_text parse d chunk us pulse_us)
  unfolding loop_turn IsQuiet
  looped-IsQuiet d chunk us pulse_us down =
      let i : Input = record { chunk = chunk; now = now_ms us; broker = seen real_text parse d } in
      let r = pass real_text parse d.parser d.app i.chunk i.now i.broker in
      let next : Device Parser = record d { parser = r.0; app = r.1 } in
      let none_ = pass_silent real_text parse d.parser d.app i down in
      let same = ap (λ (n : Net). n.connected) (acts-Spares pulse_us next r.2).0.net in
      (same ∙ down, acts_quiet pulse_us next r.2 none_.0 none_.1)

  device_step-IsQuiet :
      (d : Device Parser) (e : Event)
      → d.net.connected ≡ false
      → connections (e ∷ []) ≡ 0
      → IsQuiet (device_step real_text parse d e)
  unfolding device_step on_mqtt connections IsQuiet begins fails
  device_step-IsQuiet d (looped chunk us pulse_us) down h = looped-IsQuiet d chunk us pulse_us down
  device_step-IsQuiet d (mqtt_event p mqtt_connected) down h = absurd (omega (arith, h))
  device_step-IsQuiet d (mqtt_event p mqtt_disconnected) down h = (refl, refl)
  device_step-IsQuiet d (mqtt_event p (mqtt_data topic payload)) down h =
      (on_data-connected d.mqtt.status_top d.mqtt.ota_top p d.net topic payload ∙ down, refl)
  device_step-IsQuiet d (mqtt_event p mqtt_error) down h = (down, refl)
  device_step-IsQuiet d (mqtt_event p mqtt_other) down h = (down, refl)
  device_step-IsQuiet d (wifi_event e) down h = (on_wifi-connected d.net e down, refl)
  device_step-IsQuiet d download_begins down h = elim (Bool-cases (d.net.ota.waiting == 0)) [
    | inl e ↦ rw (e, begins) (down, refl)
    | inr e ↦ rw (e, begins) (down, refl)
  ]
  device_step-IsQuiet d download_fails down h = elim (Bool-cases (d.net.ota.running == 0)) [
    | inl e ↦ rw (e, fails) (down, refl)
    | inr e ↦ rw (e, fails) (down, refl)
  ]
  device_step-IsQuiet d led_turn down h = (down, refl)

  -- A device without a session, to which the broker opens none, publishes nothing, subscribes to
  -- nothing and marks no image as valid, whatever the meter sends and whatever else happens.
  pub device_run_quiet :
      (d : Device Parser) (es : List Event)
      → d.net.connected ≡ false
      → connections es ≡ 0
      → (device_run real_text parse d es).1 ≡ []
  unfolding device_run IsQuiet
  device_run_quiet d [] down h = refl
  device_run_quiet d (e ∷ es) down h =
      let count = connections-cons e es in
      let one = device_step-IsQuiet d e down (omega (arith, count, h)) in
      let r = device_step real_text parse d e in
      let later = device_run_quiet r.0 es one.0 (omega (arith, count, h)) in rw (one.1) later
