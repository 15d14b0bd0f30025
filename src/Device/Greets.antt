-- ===== src/Device/Greets.antt =====
-- The running device in a new session.
use gplug_mini.Base.{
  ℕ, ◌+◌, ◌^◌, ◌≤◌, ◌<◌, ◌≡◌, ◌≢◌, refl, ap, subst, ◌∙◌, List, [], ◌∷◌, ◌++◌, Bytes, ◌==◌, length,
  drop, All, All-append, arith, Bool-cases, inl, inr,
}
use gplug_mini.Aggregator.{cycle_gap_ms, sub32}
use gplug_mini.Config.{Config}
use gplug_mini.Framing.{leading_flags}
use gplug_mini.App.{App, Capture, Parsed, max_cycle, discovery_codes, pass}
use gplug_mini.App.Publish.{Entities, discoveries}
use gplug_mini.App.Loop.{Run}
use gplug_mini.App.Passes.{Input, passes}
use gplug_mini.App.Collect.{bytes_of, last_time, Gathers}
use gplug_mini.App.Serial.{learned}
use gplug_mini.App.Announces.{telegram-Entities, pass-session}
use gplug_mini.Net.{
  Net, Platform, mqtt_connected, mqtt_disconnected, mqtt_data, mqtt_error, mqtt_other, on_mqtt,
  on_connected,
}
use gplug_mini.Net.Session.{on_data-session}
use gplug_mini.Net.Setup.{mac_str}
use gplug_mini.Net.Topics.{length-mac_str}
use gplug_mini.Device.{
  Device, Event, looped, mqtt_event, wifi_event, download_begins, download_fails, led_turn, now_ms,
  begins, fails, seen, loop_turn, device_step, device_run,
}
use gplug_mini.Device.Invariant.{IsEvent, acts-Spares, device_run-IsGood}
use gplug_mini.Device.Announce.{connections, connections-cons, on_wifi-session}
use gplug_mini.Device.Booted.{booted, booted-IsGood}
use gplug_mini.Device.Passed.{IsSteady, inputs, inputs-append, kept, device_run-Passed}
use gplug_mini.Device.Named.{device_run-Named}

-- As long as the count of sessions has not wrapped around: none was announced that is still to come.
pub record IsFresh {Parser : Type 0} (n : ℕ) (d : Device Parser) : Type 0 where
  pub session_le : d.net.session ≤ n
  pub announced_le : d.app.discovery_session ≤ d.net.session

IsFresh-le : {Parser : Type 0} (m n : ℕ) (d : Device Parser) → m ≤ n → IsFresh m d → IsFresh n d
IsFresh-le m n d h f = record {
  session_le = omega (arith, f.session_le);
  announced_le = f.announced_le;
}

begins-IsFresh : {Parser : Type 0} (n : ℕ) (d : Device Parser) → IsFresh n d → IsFresh n (begins d)
unfolding begins
begins-IsFresh n d h = elim (Bool-cases (d.net.ota.waiting == 0)) [
  | inl e ↦ rw (e, begins) h
  | inr e ↦ rw (e, begins) record { session_le = h.session_le; announced_le = h.announced_le }
]

fails-IsFresh : {Parser : Type 0} (n : ℕ) (d : Device Parser) → IsFresh n d → IsFresh n (fails d)
unfolding fails
fails-IsFresh n d h = elim (Bool-cases (d.net.ota.running == 0)) [
  | inl e ↦ rw (e, fails) h
  | inr e ↦ rw (e, fails) record { session_le = h.session_le; announced_le = h.announced_le }
]

module _ {Real Parser : Type 0} (real_text : Real → Bytes)
    (parse : Parser → Bytes → Parser × Parsed Real) where
  loop_turn-IsFresh :
      (n : ℕ) (d : Device Parser) (chunk : Bytes) (us pulse_us : ℕ)
      → IsFresh n d
      → IsFresh n (loop_turn real_text parse d chunk us pulse_us).0
  unfolding loop_turn
  loop_turn-IsFresh n d chunk us pulse_us h =
      let r = pass real_text parse d.parser d.app chunk (now_ms us) (seen real_text parse d) in
      let next : Device Parser = record d { parser = r.0; app = r.1 } in
      let spares = (acts-Spares pulse_us next r.2).0 in
      let net = ap (λ (m : Net). m.session) spares.net in
      let app = ap (λ (a : App). a.discovery_session) spares.app in
      elim (pass-session real_text parse d.parser d.app chunk (now_ms us)
        (seen real_text parse d)) [
          | inl old ↦ record {
            session_le = omega (arith, net, h.session_le);
            announced_le = omega (arith, net, app, old, h.announced_le);
          }
          | inr new ↦ record {
            session_le = omega (arith, net, h.session_le);
            announced_le = omega (arith, net, app, new);
          }
        ]

  device_step-IsFresh :
      (n : ℕ) (d : Device Parser) (e : Event)
      → n + connections (e ∷ []) < 2 ^ 32
      → IsFresh n d
      → IsFresh (n + connections (e ∷ [])) (device_step real_text parse d e).0
  unfolding device_step on_mqtt on_connected connections
  device_step-IsFresh n d (looped chunk us pulse_us) k h =
      IsFresh-le n (n + 0) _ (omega arith) (loop_turn-IsFresh n d chunk us pulse_us h)
  device_step-IsFresh n d (mqtt_event p mqtt_connected) k h = record {
    session_le = omega (arith, h.session_le, k);
    announced_le = omega (arith, h.session_le, h.announced_le, k);
  }
  device_step-IsFresh n d (mqtt_event p mqtt_disconnected) k h = record {
    session_le = omega (arith, h.session_le);
    announced_le = h.announced_le;
  }
  device_step-IsFresh n d (mqtt_event p (mqtt_data topic payload)) k h =
      let same = on_data-session d.mqtt.status_top d.mqtt.ota_top p d.net topic payload in
      record {
        session_le = omega (arith, same, h.session_le);
        announced_le = omega (arith, same, h.announced_le);
      }
  device_step-IsFresh n d (mqtt_event p mqtt_error) k h = IsFresh-le n (n + 0) d (omega arith) h
  device_step-IsFresh n d (mqtt_event p mqtt_other) k h = IsFresh-le n (n + 0) d (omega arith) h
  device_step-IsFresh n d (wifi_event e) k h =
      let same = on_wifi-session d.net e in
      record {
        session_le = omega (arith, same, h.session_le);
        announced_le = omega (arith, same, h.announced_le);
      }
  device_step-IsFresh n d download_begins k h =
      IsFresh-le n (n + 0) _ (omega arith) (begins-IsFresh n d h)
  device_step-IsFresh n d download_fails k h =
      IsFresh-le n (n + 0) _ (omega arith) (fails-IsFresh n d h)
  device_step-IsFresh n d led_turn k h = record {
    session_le = omega (arith, h.session_le);
    announced_le = h.announced_le;
  }

  device_run-IsFresh :
      (n : ℕ) (d : Device Parser) (es : List Event)
      → n + connections es < 2 ^ 32
      → IsFresh n d
      → IsFresh (n + connections es) (device_run real_text parse d es).0
  unfolding device_run connections
  device_run-IsFresh n d [] k h = IsFresh-le n (n + 0) d (omega arith) h
  device_run-IsFresh n d (e ∷ es) k h =
      let sum = connections-cons e es in
      let one = device_step-IsFresh n d e (omega (arith, sum, k)) h in
      let m = n + connections (e ∷ []) in
      let later =
        device_run-IsFresh m (device_step real_text parse d e).0 es (omega (arith, sum, k)) one in
      IsFresh-le (m + connections es) (n + connections (e ∷ es)) _ (omega (arith, sum)) later

module _ {Real Parser : Type 0} (real_text : Real → Bytes)
    (parse : Parser → Bytes → Parser × Parsed Real) (conf : Config) (mac : Bytes) (parser : Parser)
    (elapsed started_us : ℕ) where
  -- The device after these events.
  abbrev pub lived : List Event → Device Parser
  lived before = (device_run real_text parse (booted conf mac parser elapsed started_us) before).0

  -- The device as the client then reports a session.
  abbrev pub greeted : List Event → Platform → Device Parser
  greeted before p = (device_step real_text parse (lived before) (mqtt_event p mqtt_connected)).0

  -- A session that opens was not announced before.
  greeted_new :
      (before : List Event) (p : Platform)
      → connections before + 1 < 2 ^ 32
      → (greeted before p).app.discovery_session ≢ (greeted before p).net.session
  unfolding device_step on_mqtt on_connected
  greeted_new before p few e =
      let start = booted conf mac parser elapsed started_us in
      let fresh : IsFresh 0 start = record {
        session_le = omega arith;
        announced_le = omega arith;
      } in
      let h = device_run-IsFresh real_text parse 0 start before (omega (arith, few)) fresh in
      absurd (omega (arith, e, few, h.session_le, h.announced_le))

  -- Whatever has happened to the device since its start, with fewer than 2 ^ 32 - 1 sessions: when a
  -- session opens, the first telegram in it that arrives over the loop's passes into an empty buffer,
  -- fits it, and is followed by two seconds or more of silence, with the serial known or in it, has
  -- the device announce exactly its eight entities under that serial, each whole, and nothing else,
  -- whatever downloads, commands, errors and turns of the LED come in between.
  pub greeted-Entities :
      (before es : List Event) (p : Platform) (us pulse_us : ℕ) {q : Parser}
      {cs : List (Capture Real)} {n : ℕ}
      → let d = greeted before p in
        let is = inputs (seen real_text parse d) es in
        All IsEvent before
        → connections before + 1 < 2 ^ 32
        → All IsSteady es
        → d.app.cycle ≡ []
        → Gathers d.app.last_byte 0 is
        → 0 < length (bytes_of is)
        → length (bytes_of is) ≤ max_cycle
        → cycle_gap_ms ≤ sub32 (now_ms us) (last_time d.app.last_byte is)
        → 0 < length (learned real_text d.app.serial cs)
        → Run real_text parse d.parser (drop (leading_flags (bytes_of is)) (bytes_of is)) q cs n
        → Entities
            (learned real_text d.app.serial cs)
            (mac_str mac)
            discovery_codes
            (kept (device_run real_text parse d (es ++ looped [] us pulse_us ∷ [])).1)
  unfolding inputs IsSteady device_step on_mqtt on_connected
  greeted-Entities before es p us pulse_us {q} {cs} {n} small few steady empty gathers any room gap
        known run =
      let start = booted conf mac parser elapsed started_us in
      let d = greeted before p in
      let b = seen real_text parse d in
      let is = inputs b es in
      let silence : Input = record { chunk = []; now = now_ms us; broker = b } in
      let more = es ++ looped [] us pulse_us ∷ [] in
      let good =
        device_run-IsGood real_text parse start before small
          (booted-IsGood real_text parse conf mac parser elapsed started_us) in
      let named = device_run-Named real_text parse start before in
      let size : length d.mac < 18 = rw (ap length named.mac) (omega (arith, length-mac_str mac)) in
      let went =
        device_run-Passed real_text parse d more
          (All-append IsSteady es (looped [] us pulse_us ∷ []) steady (tt, tt)) in
      let told =
        telegram-Entities real_text parse d.parser d.app is silence empty gathers any room refl gap
          refl size good.app.serial_le known run (greeted_new before p few) in
      let same = inputs-append b es (looped [] us pulse_us ∷ []) in
      let sent : kept (device_run real_text parse d more).1
          ≡ discoveries (passes real_text parse d.parser d.app (is ++ silence ∷ [])).2 =
        went.announced ∙ ap (λ js. discoveries (passes real_text parse d.parser d.app js).2) same in
      rw sent (
        subst
          (λ m.
            Entities (learned real_text d.app.serial cs) m discovery_codes
              (discoveries (passes real_text parse d.parser d.app (is ++ silence ∷ [])).2))
          named.mac told)
