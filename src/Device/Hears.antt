-- ===== src/Device/Hears.antt =====
-- The running device's ear: what it takes in from the meter, whatever becomes of the network.
use gplug_mini.Base.{
  ℕ, zero, suc, ◌≡◌, refl, sym, ap, ◌∙◌, List, [], ◌∷◌, Bytes, ◌==◌, Bool-cases, inl, inr,
}
use gplug_mini.App.{Effect, Parsed, pass}
use gplug_mini.App.Heard.{Heard, heard, lines, listen, pass-listen}
use gplug_mini.Source.Uart.{Uart, meter_source_try_next_line}
use gplug_mini.Device.{
  Device, Event, looped, mqtt_event, wifi_event, download_begins, download_fails, led_turn, now_ms,
  act, acts, begins, fails, seen, loop_turn, device_step, device_run,
}
use gplug_mini.Device.Invariant.{acts-Spares}

pub record Ear (Parser : Type 0) : Type 0 where
  pub parser : Parser
  pub heard : Heard
  pub line : Uart

abbrev pub ear : {Parser : Type 0} → Device Parser → Ear Parser
ear d = record { parser = d.parser; heard = heard d.app; line = d.line }

-- The turns of the main loop among the events: what the source delivers, and when.
unfoldable pub turns : List Event → List (Bytes × ℕ)
turns [] = []
turns (looped chunk us pulse_us ∷ es) = (chunk, now_ms us) ∷ turns es
turns (_ ∷ es) = turns es

tries : ℕ → Uart → Uart
tries zero u = u
tries (suc n) u = tries n (meter_source_try_next_line u).0

acts-line :
    {Parser : Type 0}
    → (us : ℕ) (d : Device Parser) (es : List Effect)
    → (acts us d es).0.line ≡ tries (lines es) d.line
unfolding acts act lines tries
acts-line us d [] = refl
acts-line us d (Effect.discovery t s ∷ es) = acts-line us d es
acts-line us d (Effect.state s ∷ es) = acts-line us d es
acts-line us d (Effect.pulse ∷ es) = acts-line us (act us d Effect.pulse).0 es
acts-line us d (Effect.next_line ∷ es) = acts-line us (act us d Effect.next_line).0 es

begins-ear : {Parser : Type 0} (d : Device Parser) → ear (begins d) ≡ ear d
unfolding begins
begins-ear d = elim (Bool-cases (d.net.ota.waiting == 0)) [
  | inl e ↦ rw (e, begins) refl
  | inr e ↦ rw (e, begins) refl
]

fails-ear : {Parser : Type 0} (d : Device Parser) → ear (fails d) ≡ ear d
unfolding fails
fails-ear d = elim (Bool-cases (d.net.ota.running == 0)) [
  | inl e ↦ rw (e, fails) refl
  | inr e ↦ rw (e, fails) refl
]

module _ {Real Parser : Type 0} (real_text : Real → Bytes)
    (parse : Parser → Bytes → Parser × Parsed Real) where
  -- A turn of the loop, as it would go for a device that never had a network.
  hear : Ear Parser → Bytes × ℕ → Ear Parser
  hear e (chunk, now) =
      let (p, h, n) = listen real_text parse e.parser e.heard chunk now in
      record { parser = p; heard = h; line = tries n e.line }

  hear_all : Ear Parser → List (Bytes × ℕ) → Ear Parser
  hear_all e [] = e
  hear_all e (t ∷ ts) = hear_all (hear e t) ts

  loop_turn-hear :
      (d : Device Parser) (chunk : Bytes) (us pulse_us : ℕ)
      → ear (loop_turn real_text parse d chunk us pulse_us).0 ≡ hear (ear d) (chunk, now_ms us)
  unfolding loop_turn hear
  loop_turn-hear d chunk us pulse_us =
      let r = pass real_text parse d.parser d.app chunk (now_ms us) (seen real_text parse d) in
      let next : Device Parser = record d { parser = r.0; app = r.1 } in
      let spares = (acts-Spares pulse_us next r.2).0 in
      let line = acts-line pulse_us next r.2 in
      let same =
        pass-listen real_text parse d.parser d.app chunk (now_ms us) (seen real_text parse d) in
      let done : ear (acts pulse_us next r.2).0
          ≡ record { parser = r.0; heard = heard r.1; line = tries (lines r.2) d.line } =
        λ i. record { parser = spares.parser i; heard = heard (spares.app i); line = line i } in
      done
      ∙ ap
          (λ (x : Parser × Heard × ℕ). record {
            parser = x.0;
            heard = x.1;
            line = tries x.2 d.line;
          })
          same

  device_run-hear_all :
      (d : Device Parser) (es : List Event)
      → ear (device_run real_text parse d es).0 ≡ hear_all (ear d) (turns es)
  unfolding device_run device_step turns hear_all
  device_run-hear_all d [] = refl
  device_run-hear_all d (looped chunk us pulse_us ∷ es) =
      device_run-hear_all (loop_turn real_text parse d chunk us pulse_us).0 es
      ∙ ap (λ e. hear_all e (turns es)) (loop_turn-hear d chunk us pulse_us)
  device_run-hear_all d (mqtt_event p e ∷ es) =
      device_run-hear_all (device_step real_text parse d (mqtt_event p e)).0 es
  device_run-hear_all d (wifi_event e ∷ es) =
      device_run-hear_all (device_step real_text parse d (wifi_event e)).0 es
  device_run-hear_all d (download_begins ∷ es) =
      device_run-hear_all (begins d) es ∙ ap (λ e. hear_all e (turns es)) (begins-ear d)
  device_run-hear_all d (download_fails ∷ es) =
      device_run-hear_all (fails d) es ∙ ap (λ e. hear_all e (turns es)) (fails-ear d)
  device_run-hear_all d (led_turn ∷ es) =
      device_run-hear_all (device_step real_text parse d led_turn).0 es

  -- What the device takes in from the meter does not depend on its network: two devices that agree on
  -- the parser, the cycle's bytes and their time, the serial, the count of undecoded cycles and the
  -- settings of the line, and whose loops get the same bytes at the same times, agree on all of these
  -- for ever, whatever else happens to each of them, sessions, losses, commands and downloads, and
  -- whatever each has announced or published.
  pub device_run-ear :
      (d c : Device Parser) (es fs : List Event)
      → ear d ≡ ear c
      → turns es ≡ turns fs
      → ear (device_run real_text parse d es).0 ≡ ear (device_run real_text parse c fs).0
  device_run-ear d c es fs h k =
      device_run-hear_all d es ∙ (λ i. hear_all (h i) (k i)) ∙ sym (device_run-hear_all c fs)
