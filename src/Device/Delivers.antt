-- ===== src/Device/Delivers.antt =====
-- The running device with an open session: a telegram among its other events.
use gplug_mini.Base.{
  ℕ, ◌≤◌, ◌<◌, ◌≡◌, refl, ap, ◌∙◌, true, List, [], ◌∷◌, ◌++◌, Bytes, ◌==◌, if◌then◌else◌, length,
  drop, All, All-append, arith,
}
use gplug_mini.Aggregator.{cycle_gap_ms, sub32}
use gplug_mini.CycleSet.Message.{message}
use gplug_mini.Framing.{leading_flags}
use gplug_mini.App.{Capture, Parsed, max_cycle}
use gplug_mini.App.Publish.{states}
use gplug_mini.App.Loop.{Run}
use gplug_mini.App.Cycle.{registers}
use gplug_mini.App.Passes.{Input, passes}
use gplug_mini.App.Collect.{bytes_of, last_time, Gathers}
use gplug_mini.App.Serial.{learned}
use gplug_mini.App.Room.{IsPlausible}
use gplug_mini.App.Telegram.{telegram_message}
use gplug_mini.Device.{Device, Event, looped, now_ms, seen, device_run}
use gplug_mini.Device.Passed.{IsSteady, inputs, passing, on_topic, inputs-append, device_run-Passed}

module _ {Real Parser : Type 0} (real_text : Real → Bytes)
    (some_text : (x : Real) → 0 < length (real_text x))
    (parse : Parser → Bytes → Parser × Parsed Real) where
  -- If no `double` has the empty text: in the running device with an open session, an empty buffer
  -- and an address and a serial that fit their arrays, a telegram that arrives over the loop's
  -- passes, no longer than the buffer, none of its pauses long enough to end it, and then a pass
  -- without bytes, two seconds or more behind the last of them, publish on the device's topic of
  -- states the one message of the registers that the parser reports, if it reports plausible
  -- values of which there are any, and otherwise nothing; whatever downloads, commands, errors and
  -- turns of the LED come between these passes, as long as the session stays, and if the serial is
  -- known or the telegram brings it.
  pub device_publishes :
      (d : Device Parser) (es : List Event) (us pulse_us : ℕ) {q : Parser}
      {cs : List (Capture Real)} {n : ℕ}
      → let is = inputs (seen real_text parse d) es in
        All IsSteady es
        → d.app.cycle ≡ []
        → Gathers d.app.last_byte 0 is
        → 0 < length (bytes_of is)
        → length (bytes_of is) ≤ max_cycle
        → cycle_gap_ms ≤ sub32 (now_ms us) (last_time d.app.last_byte is)
        → d.net.connected ≡ true
        → length d.mac < 18
        → length d.app.serial ≤ 31
        → 0 < length (learned real_text d.app.serial cs)
        → Run real_text parse d.parser (drop (leading_flags (bytes_of is)) (bytes_of is)) q cs n
        → All (IsPlausible real_text) cs
        → passing (device_run real_text parse d (es ++ looped [] us pulse_us ∷ [])).1 ≡ (
            if length (registers real_text cs) == 0
            then []
            else (d.mqtt.state_top, message (registers real_text cs)) ∷ [])
  unfolding inputs IsSteady
  device_publishes d es us pulse_us {q} {cs} {n} steady empty gathers any room gap up mac short
        known run plausible =
      let b = seen real_text parse d in
      let is = inputs b es in
      let silence : Input = record { chunk = []; now = now_ms us; broker = b } in
      let more = es ++ looped [] us pulse_us ∷ [] in
      let went =
        device_run-Passed real_text parse d more
          (All-append IsSteady es (looped [] us pulse_us ∷ []) steady (tt, tt)) in
      let done =
        telegram_message real_text some_text parse d.parser d.app is silence empty gathers any room
          refl gap up mac short known run plausible in
      let same = inputs-append b es (looped [] us pulse_us ∷ []) in
      let sent : states (passes real_text parse d.parser d.app (inputs b more)).2 ≡ (
          if length (registers real_text cs) == 0
          then []
          else message (registers real_text cs) ∷ []) =
        rw same done.published in
      went.published ∙ ap (on_topic d.mqtt.state_top) sent ∙ ground arith
