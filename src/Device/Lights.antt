-- ===== src/Device/Lights.antt =====
-- The running device's light during a download.
use gplug_mini.Base.{
  ℕ, ◌%◌, ◌≡◌, ◌≢◌, ◌⊎◌, refl, ◌∙◌, false, List, [], ◌∷◌, Bytes, ltb, ◌==◌, All, arith, Bool-cases,
  inl, inr,
}
use gplug_mini.App.{Parsed, pass}
use gplug_mini.Indicator.{
  Led, updating, green_light, blue_light, pattern_for, indicate, shown, tick,
}
use gplug_mini.Device.{
  Device, Event, looped, mqtt_event, wifi_event, download_begins, download_fails, led_turn, now_ms,
  begins, seen, loop_turn, device_step, device_run,
}
use gplug_mini.Device.Invariant.{acts-Spares}

-- Anything but the failure of a download.
unfoldable pub IsOther : Event → Type 0
IsOther download_fails = ⊥
IsOther _ = Unit

-- The light of a download, at any time and place in its pattern.
shown_updating :
    (l : Led) (us : ℕ)
    → l.current ≡ updating
    → (shown l us ≡ green_light) ⊎ (shown l us ≡ blue_light)
unfolding shown pattern_for
shown_updating l us h = elim (Bool-cases (ltb us l.pulse_until_us)) [
  | inl e ↦ inl (rw (e, shown) refl)
  | inr e ↦ elim (Bool-cases (ltb (l.elapsed % 200) 100)) [
    | inl g ↦ inr (rw (h, e, g, shown) refl)
    | inr g ↦ inl (rw (h, e, g, shown) refl)
  ]
]

begins-updating :
    {Parser : Type 0} (d : Device Parser)
    → d.led.current ≡ updating
    → (begins d).led.current ≡ updating
unfolding begins indicate
begins-updating d h = elim (Bool-cases (d.net.ota.waiting == 0)) [
  | inl e ↦ rw (e, begins) h
  | inr e ↦ rw (e, begins) refl
]

begins-waiting :
    {Parser : Type 0} (d : Device Parser)
    → d.net.ota.waiting ≢ 0
    → (begins d).led.current ≡ updating
unfolding begins indicate
begins-waiting d h =
    let some_ : (d.net.ota.waiting == 0) ≡ false = ground (arith, h) in rw (some_, begins) refl

module _ {Real Parser : Type 0} (real_text : Real → Bytes)
    (parse : Parser → Bytes → Parser × Parsed Real) where
  device_step-updating :
      (d : Device Parser) (e : Event)
      → IsOther e
      → d.led.current ≡ updating
      → (device_step real_text parse d e).0.led.current ≡ updating
  unfolding device_step loop_turn IsOther tick
  device_step-updating d (looped chunk us pulse_us) k h =
      let r = pass real_text parse d.parser d.app chunk (now_ms us) (seen real_text parse d) in
      let next : Device Parser = record d { parser = r.0; app = r.1 } in
      (acts-Spares pulse_us next r.2).0.current ∙ h
  device_step-updating d (mqtt_event p e) k h = h
  device_step-updating d (wifi_event e) k h = h
  device_step-updating d download_begins k h = begins-updating d h
  device_step-updating d download_fails k h = absurd k
  device_step-updating d led_turn k h = h

  device_run-updating :
      (d : Device Parser) (es : List Event)
      → All IsOther es
      → d.led.current ≡ updating
      → (device_run real_text parse d es).0.led.current ≡ updating
  unfolding device_run
  device_run-updating d [] k h = h
  device_run-updating d (e ∷ es) k h =
      device_run-updating (device_step real_text parse d e).0 es k.1
        (device_step-updating d e k.0 h)

  -- From the turn in which a waiting download task starts, and through whatever else happens, telegrams
  -- and their pulses, losses of the network and further commands among it, until a download fails: at
  -- every time the LED is green or blue, and so never dark.
  pub device_run-lit :
      (d : Device Parser) (es : List Event) (us : ℕ)
      → d.net.ota.waiting ≢ 0
      → All IsOther es
      → let led = (device_run real_text parse d (download_begins ∷ es)).0.led in
        (shown led us ≡ green_light) ⊎ (shown led us ≡ blue_light)
  unfolding device_run device_step
  device_run-lit d es us h k =
      shown_updating (device_run real_text parse (begins d) es).0.led us
        (device_run-updating (begins d) es k (begins-waiting d h))
