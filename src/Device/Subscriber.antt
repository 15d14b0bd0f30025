-- ===== src/Device/Subscriber.antt =====
-- The running device from its start to a subscriber that reads what it publishes in a session.
use gplug_mini.Base.{
  ℕ, ◌≤◌, ◌<◌, ◌≡◌, refl, ap, ◌∙◌, true, false, List, [], ◌∷◌, ◌++◌, ◌+◌, ◌^◌, some, Bytes, ◌==◌,
  length, drop, All, arith,
}
use gplug_mini.Aggregator.{cycle_gap_ms, sub32}
use gplug_mini.Config.{Config}
use gplug_mini.CycleSet.Message.{Reading, message, find}
use gplug_mini.Discovery.{state_topic_text}
use gplug_mini.Framing.{leading_flags}
use gplug_mini.Obis.{ObisEntry, obis_lookup}
use gplug_mini.Json.{Json, is_number, read_json}
use gplug_mini.Json.Reads.{IsPlain, is_number-pos}
use gplug_mini.App.{Capture, Parsed, max_cycle, discovery_codes}
use gplug_mini.App.Loop.{Run}
use gplug_mini.App.Values.{readings}
use gplug_mini.App.Cycle.{registers}
use gplug_mini.App.Collect.{bytes_of, last_time, Gathers}
use gplug_mini.App.Serial.{learned}
use gplug_mini.App.Room.{IsPlausible}
use gplug_mini.App.Reads.{registers-read}
use gplug_mini.Net.Setup.{mac_str, Mqtt}
use gplug_mini.Net.Topics.{length-mac_str, state-whole}
use gplug_mini.Device.{Event, looped, now_ms, seen, device_step, device_run}
use gplug_mini.Device.Invariant.{IsEvent, device_run-IsGood}
use gplug_mini.Device.Booted.{booted, booted-IsGood}
use gplug_mini.Device.Passed.{IsSteady, inputs, passing, kept}
use gplug_mini.Device.Delivers.{device_publishes}
use gplug_mini.Device.Reads.{Shown, entity-Shown}
use gplug_mini.App.Publish.{Entities, nothing, entity}
use gplug_mini.Device.Named.{device_run-Named}
use gplug_mini.Device.Announce.{connections}
use gplug_mini.Device.Greets.{greeted, greeted-Entities}
use gplug_mini.Net.{Platform, on_mqtt, on_connected}
use gplug_mini.CycleSet.Read.{number_under}

-- What a session's announcements lead a subscriber to: one for each code, and each of them to its
-- register's value in the message.
pub data Shows (serial mac topic : Bytes) (v : Json) (rs : List Reading)
    : List Bytes → List (Bytes × Bytes) → Type 0 where
  all_shown : Shows serial mac topic v rs [] []
  shown :
      {code : Bytes} {rest : List Bytes} {m : Bytes × Bytes} {more : List (Bytes × Bytes)}
      {e : ObisEntry}
      → obis_lookup code ≡ some e
      → Shown e serial mac topic v rs m
      → Shows serial mac topic v rs rest more
      → Shows serial mac topic v rs (code ∷ rest) (m ∷ more)

Entities-Shows :
    (serial mac : Bytes) (v : Json) (rs : List Reading) {ks : List Bytes}
    {sent : List (Bytes × Bytes)}
    → IsPlain serial
    → (read : (l : Bytes) → number_under l v ≡ find l rs) → Entities serial (mac_str mac) ks sent
    → Shows serial (mac_str mac) (state_topic_text (mac_str mac)) v rs ks sent
Entities-Shows serial mac v rs plain read nothing = all_shown
Entities-Shows serial mac v rs plain read (entity {code = code} {e = e} {c = c} found sensor more) =
    shown found (entity-Shown code serial mac v rs found sensor plain (read e.label))
      (Entities-Shows serial mac v rs plain read more)

module _ {Real Parser : Type 0} (real_text : Real → Bytes)
    (real_number : (x : Real) → is_number (real_text x) ≡ true)
    (parse : Parser → Bytes → Parser × Parsed Real) (conf : Config) (mac : Bytes) (parser : Parser)
    (elapsed started_us : ℕ) where
  -- If the text of each `double` is a number of JSON: whatever has happened to the device since its
  -- start, chunks of at most 256 bytes and fewer than 2 ^ 32 - 1 sessions among it: when a session
  -- opens and the buffer is empty, and the first telegram in it, with plausible values, some of them
  -- registers, and a serial known or in it that holds no character that JSON escapes, arrives over the
  -- loop's passes, none of its pauses long enough to end it, fits the buffer and is followed by two
  -- seconds or more of silence, then exactly one state message is published, on the device's topic of
  -- states, and it reads as JSON; and the messages that the broker is asked to keep are exactly the
  -- announcements of the eight fixed codes, each on its entity's topic, each of which reads as JSON,
  -- names the topic of that message, and has a template for the name under which the message has the
  -- register's first reading, and nothing where the register has none; whatever downloads, commands,
  -- errors and turns of the LED come in between, as long as the session stays.
  pub booted_subscriber :
      (before es : List Event) (p : Platform) (us pulse_us : ℕ) {q : Parser}
      {cs : List (Capture Real)} {n : ℕ}
      → let d = greeted real_text parse conf mac parser elapsed started_us before p in
        let is = inputs (seen real_text parse d) es in
        All IsEvent before
        → connections before + 1 < 2 ^ 32
        → All IsSteady es
        → d.app.cycle ≡ []
        → Gathers d.app.last_byte 0 is
        → 0 < length (bytes_of is)
        → length (bytes_of is) ≤ max_cycle
        → cycle_gap_ms ≤ sub32 (now_ms us) (last_time d.app.last_byte is)
        → 0 < length (learned real_text d.app.serial cs)
        → IsPlain (learned real_text d.app.serial cs)
        → Run real_text parse d.parser (drop (leading_flags (bytes_of is)) (bytes_of is)) q cs n
        → All (IsPlausible real_text) cs
        → 0 < length (registers real_text cs)
        → let out = (device_run real_text parse d (es ++ looped [] us pulse_us ∷ [])).1 in
          (payload : Bytes) × (v : Json) × (passing out
            ≡ (state_topic_text (mac_str mac), payload) ∷ [])
          × (read_json payload ≡ some v)
          × Shows
              (learned real_text d.app.serial cs)
              (mac_str mac)
              (state_topic_text (mac_str mac))
              v
              (readings real_text cs)
              discovery_codes
              (kept out)
  unfolding device_step on_mqtt on_connected
  booted_subscriber before es p us pulse_us {q} {cs} {n} small few steady empty gathers any room gap
        known plain run plausible some_ =
      let start = booted conf mac parser elapsed started_us in
      let d = greeted real_text parse conf mac parser elapsed started_us before p in
      let good =
        device_run-IsGood real_text parse start before small
          (booted-IsGood real_text parse conf mac parser elapsed started_us) in
      let named = device_run-Named real_text parse start before in
      let size : length d.mac < 18 = rw (ap length named.mac) (omega (arith, length-mac_str mac)) in
      let topic : d.mqtt.state_top ≡ state_topic_text (mac_str mac) =
        ap (λ (m : Mqtt). m.state_top) named.mqtt ∙ state-whole conf mac in
      let sent =
        device_publishes real_text (λ x. is_number-pos (real_text x) (real_number x)) parse d es us
          pulse_us steady empty gathers any room gap refl size good.app.serial_le known run
          plausible in
      let told =
        greeted-Entities real_text parse conf mac parser elapsed started_us before es p us pulse_us
          small few steady empty gathers any room gap known run in
      let (v, reads, finds) = registers-read real_text real_number cs some_ in
      let nonzero : (length (registers real_text cs) == 0) ≡ false = ground arith in
      (
        message (registers real_text cs),
        v,
        sent ∙ rw (nonzero, topic) refl,
        reads,
        Entities-Shows (learned real_text d.app.serial cs) mac v (readings real_text cs) plain finds
            told,
      )
