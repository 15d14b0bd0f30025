-- ===== src/Device/Invariant.antt =====
-- What stays true of the running device, whatever its tasks do and in whatever order.
use gplug_mini.Base.{
  ℕ, ◌≤◌, ◌<◌, ◌≡◌, ◌⊎◌, refl, ◌∙◌, List, [], ◌∷◌, Bytes, ◌==◌, length, All, arith, Bool-cases, inl,
  inr,
}
use gplug_mini.App.{Effect, Parsed, pass}
use gplug_mini.App.Passes.{Input, IsBounded, pass-IsBounded}
use gplug_mini.Indicator.{Indication, operational, updating, indicate, indicate_publish, tick}
use gplug_mini.Net.Sound.{IsNet, on_mqtt-IsNet, on_wifi-IsNet}
use gplug_mini.Ota.{download_begin}
use gplug_mini.Ota.Trace.{pending-IsFetchable, failed-IsSound, checked}
use gplug_mini.Source.{try_next_line}
use gplug_mini.Source.Uart.{Uart, meter_source_try_next_line, apply_candidate}
use gplug_mini.Device.{
  Device, Event, looped, mqtt_event, wifi_event, download_begins, download_fails, led_turn, now_ms,
  act, acts, begins, fails, seen, loop_turn, device_step, device_run,
}

-- `chunk[256]` bounds what the source delivers at once.
unfoldable pub IsEvent : Event → Type 0
IsEvent (looped chunk us pulse_us) = length chunk ≤ 256
IsEvent _ = Unit

-- An indication that belongs to a device behind its start.
abbrev pub IsShown : Indication → Type 0
IsShown i = (i ≡ operational) ⊎ (i ≡ updating)

pub record IsGood {Parser : Type 0} (d : Device Parser) : Type 0 where
  pub app : IsBounded d.app
  pub candidate : d.line.candidate < 4
  pub net : IsNet d.net
  pub shown : IsShown d.led.current

-- What the effects of a pass leave alone.
pub record Spares {Parser : Type 0} (d r : Device Parser) : Type 0 where
  pub parser : r.parser ≡ d.parser
  pub app : r.app ≡ d.app
  pub mac : r.mac ≡ d.mac
  pub net : r.net ≡ d.net
  pub mqtt : r.mqtt ≡ d.mqtt
  pub current : r.led.current ≡ d.led.current

-- The next line is one of the table.
tried-lt : (u : Uart) → (meter_source_try_next_line u).0.candidate < 4
unfolding meter_source_try_next_line try_next_line
tried-lt u =
    let next : Uart = record u { candidate = try_next_line u.candidate } in
    rw (apply_candidate next) (omega arith)

act-Spares :
    {Parser : Type 0}
    → (us : ℕ) (d : Device Parser) (e : Effect)
    → Spares d (act us d e).0 × (d.line.candidate < 4 → (act us d e).0.line.candidate < 4)
unfolding act indicate_publish
act-Spares us d (Effect.discovery t s) = (
  record { parser = refl; app = refl; mac = refl; net = refl; mqtt = refl; current = refl },
  λ h. h,
)
act-Spares us d (Effect.state s) = (
  record { parser = refl; app = refl; mac = refl; net = refl; mqtt = refl; current = refl },
  λ h. h,
)
act-Spares us d Effect.pulse = (
  record { parser = refl; app = refl; mac = refl; net = refl; mqtt = refl; current = refl },
  λ h. h,
)
act-Spares us d Effect.next_line = (
  record { parser = refl; app = refl; mac = refl; net = refl; mqtt = refl; current = refl },
  λ h. tried-lt d.line,
)

pub acts-Spares :
    {Parser : Type 0}
    → (us : ℕ) (d : Device Parser) (es : List Effect)
    → Spares d (acts us d es).0 × (d.line.candidate < 4 → (acts us d es).0.line.candidate < 4)
unfolding acts
acts-Spares us d [] = (
  record { parser = refl; app = refl; mac = refl; net = refl; mqtt = refl; current = refl },
  λ h. h,
)
acts-Spares us d (e ∷ es) =
    let one = act-Spares us d e in
    let later = acts-Spares us (act us d e).0 es in
    (
      record {
        parser = later.0.parser ∙ one.0.parser;
        app = later.0.app ∙ one.0.app;
        mac = later.0.mac ∙ one.0.mac;
        net = later.0.net ∙ one.0.net;
        mqtt = later.0.mqtt ∙ one.0.mqtt;
        current = later.0.current ∙ one.0.current;
      },
      λ h. later.1 (one.1 h),
    )

begins-IsGood : {Parser : Type 0} → (d : Device Parser) → IsGood d → IsGood (begins d)
unfolding begins download_begin indicate
begins-IsGood d h = elim (Bool-cases (d.net.ota.waiting == 0)) [
  | inl e ↦ rw (e, begins) h
  | inr e ↦
      rw (e, begins)
        record {
          app = h.app;
          candidate = h.candidate;
          net = record {
            session = h.net.session;
            ota = checked (pending-IsFetchable d.net.ota h.net.ota (ground arith));
          };
          shown = inr refl;
        }
]

fails-IsGood : {Parser : Type 0} → (d : Device Parser) → IsGood d → IsGood (fails d)
unfolding fails indicate
fails-IsGood d h = elim (Bool-cases (d.net.ota.running == 0)) [
  | inl e ↦ rw (e, fails) h
  | inr e ↦
      rw (e, fails)
        record {
          app = h.app;
          candidate = h.candidate;
          net = record {
            session = h.net.session;
            ota = failed-IsSound d.net.ota h.net.ota (ground arith);
          };
          shown = inl refl;
        }
]

module _ {Real Parser : Type 0} (real_text : Real → Bytes)
    (parse : Parser → Bytes → Parser × Parsed Real) where
  looped-IsGood :
      (d : Device Parser) (chunk : Bytes) (us pulse_us : ℕ)
      → length chunk ≤ 256
      → IsGood d
      → IsGood (loop_turn real_text parse d chunk us pulse_us).0
  unfolding loop_turn
  looped-IsGood d chunk us pulse_us small h =
      let i : Input = record { chunk = chunk; now = now_ms us; broker = seen real_text parse d } in
      let (p, a, effects) = pass real_text parse d.parser d.app i.chunk i.now i.broker in
      let next : Device Parser = record d { parser = p; app = a } in
      let bounded = pass-IsBounded real_text parse d.parser d.app i small h.app in
      let spares = acts-Spares pulse_us next effects in
      record {
        app = rw (spares.0.app) bounded;
        candidate = spares.1 h.candidate;
        net = rw (spares.0.net) h.net;
        shown = rw (spares.0.current) h.shown;
      }

  device_step-IsGood :
      (d : Device Parser) (e : Event)
      → IsEvent e
      → IsGood d
      → IsGood (device_step real_text parse d e).0
  unfolding device_step IsEvent tick
  device_step-IsGood d (looped chunk us pulse_us) small h =
      looped-IsGood d chunk us pulse_us small h
  device_step-IsGood d (mqtt_event p e) small h = record {
    app = h.app;
    candidate = h.candidate;
    net = on_mqtt-IsNet d.mqtt.status_top d.mqtt.ota_top p d.net e h.net;
    shown = h.shown;
  }
  device_step-IsGood d (wifi_event e) small h = record {
    app = h.app;
    candidate = h.candidate;
    net = on_wifi-IsNet d.net e h.net;
    shown = h.shown;
  }
  device_step-IsGood d download_begins small h = begins-IsGood d h
  device_step-IsGood d download_fails small h = fails-IsGood d h
  device_step-IsGood d led_turn small h = record {
    app = h.app;
    candidate = h.candidate;
    net = h.net;
    shown = h.shown;
  }

  -- From a device behind its start, chunks of at most 256 bytes and any other events, in any order and
  -- number, keep the bounds of the loop's variables, a candidate that the table has, a session's number
  -- of 32 bits, an update whose tasks find an acceptable URL, and an indication that is operational or
  -- updating, so that the loss of the network is never indicated.
  pub device_run-IsGood :
      (d : Device Parser) (es : List Event)
      → All IsEvent es
      → IsGood d
      → IsGood (device_run real_text parse d es).0
  unfolding device_run
  device_run-IsGood d [] small h = h
  device_run-IsGood d (e ∷ es) small h =
      device_run-IsGood (device_step real_text parse d e).0 es small.1
        (device_step-IsGood d e small.0 h)
