-- ===== src/App/Telegram.antt =====
-- main/app_main.cpp: a telegram, from the first of its bytes to the message that is published.
use gplug_mini.Base.{
  ℕ, ◌+◌, ◌≤◌, ◌<◌, ◌≡◌, refl, sym, ap, ◌∙◌, true, List, [], ◌∷◌, ◌++◌, Bytes, length, drop, All,
  arith, append_assoc, append-nil,
}
use gplug_mini.Aggregator.{cycle_ended, cycle_gap_ms, sub32}
use gplug_mini.CycleSet.{clear}
use gplug_mini.Framing.{leading_flags}
use gplug_mini.App.{Capture, App, Effect, Parsed, max_cycle, on_values, finish_cycle, pass}
use gplug_mini.App.Values.{on_values-serial-le}
use gplug_mini.App.Loop.{Run}
use gplug_mini.App.Cycle.{registers, Finished, finish_cycle_learned}
use gplug_mini.App.Passes.{Input, passes}
use gplug_mini.App.Collect.{bytes_of, last_time, Gathers, passes-Collected}
use gplug_mini.App.Serial.{learned, on_values-learned}
use gplug_mini.App.Room.{IsPlausible, registers_room}

module _ {Real Parser : Type 0} (real_text : Real → Bytes)
    (parse : Parser → Bytes → Parser × Parsed Real) where
  pub passes-append :
      (p : Parser) (a : App) (is js : List Input)
      → let r = passes real_text parse p a is in
        let t = passes real_text parse r.0 r.1 js in
        ◌≡◌ {A = Parser × App × List Effect}
          (passes real_text parse p a (is ++ js))
          (t.0, t.1, r.2 ++ t.2)
  unfolding passes
  passes-append p a [] js = refl
  passes-append p a (i ∷ is) js =
      let one = pass real_text parse p a i.chunk i.now i.broker in
      let later = passes-append one.0 one.1 is js in
      let r = passes real_text parse one.0 one.1 is in
      let t = passes real_text parse r.0 r.1 js in
      rw later (λ k. (t.0, t.1, sym (append_assoc one.2 r.2 t.2) k))

  pub passes_one :
      (p : Parser) (a : App) (i : Input)
      → passes real_text parse p a (i ∷ []) ≡ pass real_text parse p a i.chunk i.now i.broker
  unfolding passes
  passes_one p a i =
      let one = pass real_text parse p a i.chunk i.now i.broker in
      λ k. (one.0, one.1, append-nil one.2 k)

  -- A pass that brings nothing, behind bytes that are old enough.
  pub pass_ends :
      (p : Parser) (a : App) (i : Input)
      → i.chunk ≡ []
      → cycle_ended i.now a.last_byte (length a.cycle) ≡ true
      → pass real_text parse p a i.chunk i.now i.broker ≡ finish_cycle real_text parse p a i.broker
  unfolding pass
  pass_ends p a i none over = rw (none, over) refl

pub old_enough :
    (now last n : ℕ) → 0 < n → cycle_gap_ms ≤ sub32 now last → cycle_ended now last n ≡ true
unfolding cycle_ended
old_enough now last n some gap = ground arith

module _ {Real Parser : Type 0} (real_text : Real → Bytes)
    (some_text : (x : Real) → 0 < length (real_text x))
    (parse : Parser → Bytes → Parser × Parsed Real) where
  -- If no `double` has the empty text: a telegram that arrives in whatever pieces, no longer than
  -- the buffer, with passes without bytes before it and less than two seconds behind its pieces, and
  -- then a pass without bytes, two seconds or more behind the last of them, with the broker
  -- connected, publish exactly one message, that of the first reading of each register
  -- that the parser reports, if it reports plausible values of which there are any, and otherwise
  -- none. The serial that is needed may be the one that this telegram brings. The buffer is then
  -- empty again.
  pub telegram_message :
      (p : Parser) (a : App) (is : List Input) (silence : Input) {q : Parser}
      {cs : List (Capture Real)} {n : ℕ}
      → a.cycle ≡ []
      → Gathers a.last_byte 0 is
      → 0 < length (bytes_of is)
      → length (bytes_of is) ≤ max_cycle
      → silence.chunk ≡ []
      → cycle_gap_ms ≤ sub32 silence.now (last_time a.last_byte is)
      → silence.broker.connected ≡ true
      → length silence.broker.mac < 18
      → length a.serial ≤ 31
      → 0 < length (learned real_text a.serial cs)
      → Run real_text parse p (drop (leading_flags (bytes_of is)) (bytes_of is)) q cs n
      → All (IsPlausible real_text) cs
      → Finished q (registers real_text cs) (passes real_text parse p a (is ++ silence ∷ []))
  telegram_message p a is silence {q} {cs} {n} empty some_ any room none gap up mac short known run
        plausible =
      let fits : length a.cycle + length (bytes_of is) ≤ max_cycle = rw empty (omega arith) in
      let gathers : Gathers a.last_byte (length a.cycle) is = rw empty some_ in
      let got = passes-Collected real_text parse p a is gathers fits in
      let r = passes real_text parse p a is in
      let same : r.1.cycle ≡ bytes_of is = got.cycle_is ∙ rw empty refl in
      let over : cycle_ended silence.now r.1.last_byte (length r.1.cycle) ≡ true =
        rw (same, got.last_is)
          (old_enough silence.now (last_time a.last_byte is) (length (bytes_of is)) any gap) in
      let fresh : App = record r.1 { values = 0; set = clear } in
      let serial : (on_values real_text fresh cs).serial ≡ learned real_text a.serial cs =
        on_values-learned real_text fresh cs ∙ ap (λ s. learned real_text s cs) got.serial_is in
      let fit = registers_room real_text cs plausible in
      let run' : Run real_text parse r.0 (drop (leading_flags r.1.cycle) r.1.cycle) q cs n =
        rw (same, got.parser) run in
      let le : length (on_values real_text fresh cs).serial ≤ 31 =
        on_values-serial-le real_text fresh cs (rw got.serial_is short) in
      let done =
        finish_cycle_learned real_text some_text parse r.0 r.1 silence.broker run' up
          (rw serial known) (omega arith) mac fit.0 fit.1 in
      rw (passes-append real_text parse p a is (silence ∷ []), got.silent)
        (rw
          (
            passes_one real_text parse r.0 r.1 silence,
            pass_ends real_text parse r.0 r.1 silence none over,
          )
          done)
