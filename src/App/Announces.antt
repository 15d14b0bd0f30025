-- ===== src/App/Announces.antt =====
-- main/app_main.cpp: what a telegram in a new session announces.
use gplug_mini.Base.{
  ℕ, ◌+◌, ◌≤◌, ◌<◌, ◌≡◌, ◌≢◌, refl, sym, ap, subst, ◌∙◌, true, List, [], ◌∷◌, ◌++◌, Bytes, length,
  drop, arith, inl, inr, ◌⊎◌, Bool-cases, not, ltb, ◌==◌,
}
use gplug_mini.Aggregator.{cycle_ended, cycle_gap_ms, sub32}
use gplug_mini.CycleSet.{clear}
use gplug_mini.Framing.{leading_flags}
use gplug_mini.App.{
  App, Broker, Capture, Parsed, max_cycle, on_values, discovery_codes, publish_cycle,
  publish_discovery, finish_cycle, pass, is_nil,
}
use gplug_mini.App.Values.{on_values-keeps, on_values-serial-le}
use gplug_mini.App.Publish.{
  publish_cycle_quiet, publish_cycle_open, publish_state-sent, discoveries, discoveries-append,
  Entities, publish_cycle-Sends,
}
use gplug_mini.App.Loop.{Run, parse_from-Run}
use gplug_mini.App.Cycle.{judged, judge-Judged, finish_cycle_open}
use gplug_mini.App.Passes.{Input, passes}
use gplug_mini.App.Collect.{bytes_of, last_time, Gathers, passes-Collected}
use gplug_mini.App.Serial.{learned, on_values-learned}
use gplug_mini.App.Telegram.{passes-append, passes_one, pass_ends, old_enough}

module _ {Real Parser : Type 0} (real_text : Real → Bytes)
    (parse : Parser → Bytes → Parser × Parsed Real) where
  finish_cycle-Entities :
      (p : Parser) (a : App) (b : Broker) {q : Parser} {cs : List (Capture Real)} {n : ℕ}
      → Run real_text parse p (drop (leading_flags a.cycle) a.cycle) q cs n
      → b.connected ≡ true
      → 0 < length (learned real_text a.serial cs)
      → length a.serial ≤ 31
      → length b.mac < 18
      → a.discovery_session ≢ b.session
      → Entities
          (learned real_text a.serial cs)
          b.mac
          discovery_codes
          (discoveries (finish_cycle real_text parse p a b).2)
  finish_cycle-Entities p a b {q} {cs} {n} run up known short mac new =
      let fresh : App = record a { values = 0; set = clear } in
      let line = judge-Judged (on_values real_text fresh cs) n in
      let done = judged real_text parse p a b cs n in
      let serial : done.0.serial ≡ learned real_text a.serial cs =
        line.serial ∙ on_values-learned real_text fresh cs in
      let session : done.0.discovery_session ≡ a.discovery_session =
        line.session ∙ (on_values-keeps real_text fresh cs).1 in
      let le = on_values-serial-le real_text fresh cs short in
      let size : length done.0.serial < 32 = rw (line.serial) (omega (arith, le)) in
      let sends = publish_cycle-Sends done.0 b up (rw serial known) size mac in
      let all : discoveries (done.1 ++ (publish_cycle done.0 b).1)
          ≡ discoveries (publish_cycle done.0 b).1 =
        discoveries-append done.1 (publish_cycle done.0 b).1
        ∙ ap (λ ds. ds ++ discoveries (publish_cycle done.0 b).1) line.discoveries_none in
      elim (sends.discovered) [
        | inl old ↦ absurd (new (sym session ∙ old.0))
        | inr told ↦ rw (finish_cycle_open real_text parse p a b run) (
            rw all (
              subst (λ s. Entities s b.mac discovery_codes (discoveries (publish_cycle done.0 b).1))
                serial told.1))
      ]

  pub telegram-Entities :
      (p : Parser) (a : App) (is : List Input) (silence : Input) {q : Parser}
      {cs : List (Capture Real)} {n : ℕ}
      → a.cycle ≡ []
      → Gathers a.last_byte 0 is
      → 0 < length (bytes_of is)
      → length (bytes_of is) ≤ max_cycle
      → silence.chunk ≡ []
      → cycle_gap_ms ≤ sub32 silence.now (last_time a.last_byte is)
      → silence.broker.connected ≡ true
      → length silence.broker.mac < 18
      → length a.serial ≤ 31
      → 0 < length (learned real_text a.serial cs)
      → Run real_text parse p (drop (leading_flags (bytes_of is)) (bytes_of is)) q cs n
      → a.discovery_session ≢ silence.broker.session
      → Entities
          (learned real_text a.serial cs)
          silence.broker.mac
          discovery_codes
          (discoveries (passes real_text parse p a (is ++ silence ∷ [])).2)
  telegram-Entities p a is silence {q} {cs} {n} empty some_ any room none gap up mac short known run
        new =
      let fits : length a.cycle + length (bytes_of is) ≤ max_cycle = rw empty (omega arith) in
      let gathers : Gathers a.last_byte (length a.cycle) is = rw empty some_ in
      let got = passes-Collected real_text parse p a is gathers fits in
      let r = passes real_text parse p a is in
      let same : r.1.cycle ≡ bytes_of is = got.cycle_is ∙ rw empty refl in
      let over : cycle_ended silence.now r.1.last_byte (length r.1.cycle) ≡ true =
        rw (same, got.last_is)
          (old_enough silence.now (last_time a.last_byte is) (length (bytes_of is)) any gap) in
      let run' : Run real_text parse r.0 (drop (leading_flags r.1.cycle) r.1.cycle) q cs n =
        rw (same, got.parser) run in
      let serial : learned real_text r.1.serial cs ≡ learned real_text a.serial cs =
        ap (λ s. learned real_text s cs) got.serial_is in
      let done =
        finish_cycle-Entities r.0 r.1 silence.broker run' up (rw serial known)
          (rw (got.serial_is) short) mac (λ e. new (sym got.session_is ∙ e)) in
      let told =
        subst
          (λ s.
            Entities s silence.broker.mac discovery_codes
              (discoveries (finish_cycle real_text parse r.0 r.1 silence.broker).2))
          serial done in
      rw (passes-append real_text parse p a is (silence ∷ []), got.silent)
        (rw
          (
            passes_one real_text parse r.0 r.1 silence,
            pass_ends real_text parse r.0 r.1 silence none over,
          )
          told)

publish_cycle-session :
    (a : App) (b : Broker)
    → ((publish_cycle a b).0.discovery_session ≡ a.discovery_session)
      ⊎ ((publish_cycle a b).0.discovery_session ≡ b.session)
unfolding publish_discovery
publish_cycle-session a b = elim (Bool-cases b.connected) [
  | inr down ↦ inl (rw (publish_cycle_quiet a b (inl down)) refl)
  | inl up ↦ elim (Bool-cases (is_nil a.serial)) [
    | inl nil ↦ inl (rw (publish_cycle_quiet a b (inr (ground arith))) refl)
    | inr known ↦
        let open_ = publish_cycle_open a b up (ground arith) in
        elim (Bool-cases (a.discovery_session == b.session)) [
          | inl same ↦ inl (rw (open_, same, publish_discovery) (publish_state-sent a).2)
          | inr other ↦ inr (
              rw (open_, other, publish_discovery)
                (publish_state-sent (record a { discovery_session = b.session })).2)
        ]
  ]
]

module _ {Real Parser : Type 0} (real_text : Real → Bytes)
    (parse : Parser → Bytes → Parser × Parsed Real) where
  -- The session that counts as announced is the one before, or the broker's.
  pub pass-session :
      (p : Parser) (a : App) (chunk : Bytes) (now : ℕ) (b : Broker)
      → ((pass real_text parse p a chunk now b).1.discovery_session ≡ a.discovery_session)
        ⊎ ((pass real_text parse p a chunk now b).1.discovery_session ≡ b.session)
  unfolding pass
  pass-session p a chunk now b = elim (Bool-cases (ltb 0 (length chunk))) [
    | inl some_ ↦ inl (rw (some_, pass) refl)
    | inr none_ ↦ elim (Bool-cases (not (cycle_ended now a.last_byte (length a.cycle)))) [
      | inl running ↦ inl (rw (none_, running, pass) refl)
      | inr over ↦
          let rest = drop (leading_flags a.cycle) a.cycle in
          let fresh : App = record a { values = 0; set = clear } in
          let (q, cs, n, run, same) =
            parse_from-Run real_text parse (length rest) p fresh 0 rest (omega arith) in
          let done = judged real_text parse p a b cs n in
          let kept =
            (judge-Judged (on_values real_text fresh cs) n).session
            ∙ (on_values-keeps real_text fresh cs).1 in
          elim (publish_cycle-session done.0 b) [
            | inl old ↦
                inl
                  (rw (none_, over, pass, finish_cycle_open real_text parse p a b run) (old ∙ kept))
            | inr new ↦
                inr (rw (none_, over, pass, finish_cycle_open real_text parse p a b run) new)
          ]
    ]
  ]
