-- ===== src/Device/Named.antt =====
-- The running device keeps its name and its topics.
use gplug_mini.Base.{◌≡◌, refl, ◌∙◌, List, [], ◌∷◌, Bytes, ◌==◌, Bool-cases, inl, inr}
use gplug_mini.App.{Parsed, pass}
use gplug_mini.Device.{
  Device, Event, looped, mqtt_event, wifi_event, download_begins, download_fails, led_turn, now_ms,
  begins, fails, seen, loop_turn, device_step, device_run,
}
use gplug_mini.Device.Invariant.{acts-Spares}

-- A device with the name and the topics of another.
pub record Named {Parser : Type 0} (d r : Device Parser) : Type 0 where
  pub mqtt : r.mqtt ≡ d.mqtt
  pub mac : r.mac ≡ d.mac

begins-Named : {Parser : Type 0} (d : Device Parser) → Named d (begins d)
unfolding begins
begins-Named d = elim (Bool-cases (d.net.ota.waiting == 0)) [
  | inl e ↦ rw (e, begins) record { mqtt = refl; mac = refl }
  | inr e ↦ rw (e, begins) record { mqtt = refl; mac = refl }
]

fails-Named : {Parser : Type 0} (d : Device Parser) → Named d (fails d)
unfolding fails
fails-Named d = elim (Bool-cases (d.net.ota.running == 0)) [
  | inl e ↦ rw (e, fails) record { mqtt = refl; mac = refl }
  | inr e ↦ rw (e, fails) record { mqtt = refl; mac = refl }
]

module _ {Real Parser : Type 0} (real_text : Real → Bytes)
    (parse : Parser → Bytes → Parser × Parsed Real) where
  device_step-Named : (d : Device Parser) (e : Event) → Named d (device_step real_text parse d e).0
  unfolding device_step loop_turn
  device_step-Named d (looped chunk us pulse_us) =
      let r = pass real_text parse d.parser d.app chunk (now_ms us) (seen real_text parse d) in
      let next : Device Parser = record d { parser = r.0; app = r.1 } in
      let spares = (acts-Spares pulse_us next r.2).0 in
      record { mqtt = spares.mqtt; mac = spares.mac }
  device_step-Named d (mqtt_event p e) = record { mqtt = refl; mac = refl }
  device_step-Named d (wifi_event e) = record { mqtt = refl; mac = refl }
  device_step-Named d download_begins = begins-Named d
  device_step-Named d download_fails = fails-Named d
  device_step-Named d led_turn = record { mqtt = refl; mac = refl }

  pub device_run-Named :
      (d : Device Parser) (es : List Event) → Named d (device_run real_text parse d es).0
  unfolding device_run
  device_run-Named d [] = record { mqtt = refl; mac = refl }
  device_run-Named d (e ∷ es) =
      let one = device_step-Named d e in
      let later = device_run-Named (device_step real_text parse d e).0 es in
      record { mqtt = later.mqtt ∙ one.mqtt; mac = later.mac ∙ one.mac }
