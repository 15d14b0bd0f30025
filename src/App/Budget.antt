-- ===== src/App/Budget.antt =====
-- main/app_main.cpp: how much a pass of the loop can announce, and when it sends nothing.
use gplug_mini.Base.{
  ℕ, ◌+◌, ◌≤◌, ◌≡◌, refl, ap, subst, ◌∙◌, true, false, not, List, [], ◌∷◌, ◌++◌, Option, none, some,
  Bytes, ltb, ◌==◌, if◌then◌else◌, length, length-append, drop, arith, Bool-cases, inl, inr,
}
use gplug_mini.Aggregator.{cycle_ended}
use gplug_mini.CycleSet.{clear}
use gplug_mini.Framing.{leading_flags}
use gplug_mini.Obis.{ObisEntry, obis_lookup}
use gplug_mini.App.{
  App, Effect, Broker, Parsed, is_nil, on_values, announce, announce_all, discovery_codes,
  publish_discovery, publish_state, publish_cycle, finish_cycle, pass,
}
use gplug_mini.App.Values.{on_values-keeps}
use gplug_mini.App.Publish.{
  states, states-append, discoveries, discoveries-append, publish_state-sent, publish_cycle_open,
  publish_cycle_quiet,
}
use gplug_mini.App.Loop.{parse_from-Run}
use gplug_mini.App.Cycle.{judge-Judged, judged, finish_cycle_open}
use gplug_mini.App.Passes.{Input}

-- What may still be announced to a session: eight entities, or none if it was announced.
abbrev pub budget : ℕ → ℕ → ℕ
budget announced session = if announced == session then 0 else 8

-- An effect list, with the session that is announced behind it, in the budget that there was.
abbrev pub IsWithin : ℕ → ℕ → ℕ → List Effect → Type 0
IsWithin before after session es =
    length (discoveries es) + budget after session ≤ budget before session

announce-le :
    (serial mac : Bytes) (o : Option ObisEntry) → length (discoveries (announce serial mac o)) ≤ 1
unfolding announce discoveries
announce-le serial mac none = omega arith
announce-le serial mac (some e) = ground arith

announce_all-le :
    (serial mac : Bytes) (codes_ : List Bytes)
    → length (discoveries (announce_all serial mac codes_)) ≤ length codes_
unfolding announce_all discoveries
announce_all-le serial mac [] = omega arith
announce_all-le serial mac (c ∷ cs) =
    let one = announce serial mac (obis_lookup c) in
    let all = announce_all serial mac cs in
    let sum = ap length (discoveries-append one all) in
    let size = length-append (discoveries one) (discoveries all) in
    omega (arith, sum, size, announce-le serial mac (obis_lookup c), announce_all-le serial mac cs)

publish_cycle-IsWithin :
    (a : App) (b : Broker)
    → IsWithin a.discovery_session
        (publish_cycle a b).0.discovery_session
        b.session
        (publish_cycle a b).1
unfolding publish_discovery discoveries
publish_cycle-IsWithin a b = elim (Bool-cases b.connected) [
  | inr down ↦ rw (publish_cycle_quiet a b (inl down)) (omega arith)
  | inl up ↦ elim (Bool-cases (is_nil a.serial)) [
    | inl nil ↦ rw (publish_cycle_quiet a b (inr (ground arith))) (omega arith)
    | inr known ↦
        let open_ = publish_cycle_open a b up (ground arith) in
        elim (Bool-cases (a.discovery_session == b.session)) [
          | inl same ↦
              let sent = publish_state-sent a in
              rw (open_, same, publish_discovery, sent.1, sent.2, same) (omega arith)
          | inr other ↦
              let next : App = record a { discovery_session = b.session } in
              let sent = publish_state-sent next in
              let all = announce_all a.serial b.mac discovery_codes in
              let sum = ap length (discoveries-append all (publish_state next).1) in
              let size = length-append (discoveries all) (discoveries (publish_state next).1) in
              let none_ = ap length sent.1 in
              let eight = announce_all-le a.serial b.mac discovery_codes in
              let self : b.session == b.session ≡ true = ground arith in
              let le : length (discoveries (all ++ (publish_state next).1)) ≤ 8 =
                omega (arith, sum, size, none_, eight) in
              rw (open_, other, publish_discovery, sent.2, self) (omega (arith, le))
        ]
  ]
]

module _ {Real Parser : Type 0} (real_text : Real → Bytes)
    (parse : Parser → Bytes → Parser × Parsed Real) where
  finish_cycle-IsWithin :
      (p : Parser) (a : App) (b : Broker)
      → IsWithin a.discovery_session
          (finish_cycle real_text parse p a b).1.discovery_session
          b.session
          (finish_cycle real_text parse p a b).2
  finish_cycle-IsWithin p a b =
      let rest = drop (leading_flags a.cycle) a.cycle in
      let fresh : App = record a { values = 0; set = clear } in
      let (q, cs, n, run, same) =
        parse_from-Run real_text parse (length rest) p fresh 0 rest (omega arith) in
      let line = judge-Judged (on_values real_text fresh cs) n in
      let session = line.session ∙ (on_values-keeps real_text fresh cs).1 in
      let done = judged real_text parse p a b cs n in
      let sent = publish_cycle done.0 b in
      let total : discoveries (done.1 ++ sent.1) ≡ discoveries sent.1 =
        discoveries-append done.1 sent.1
        ∙ ap (λ ds. ds ++ discoveries sent.1) line.discoveries_none in
      let within : IsWithin a.discovery_session sent.0.discovery_session b.session sent.1 =
        subst (λ s. IsWithin s sent.0.discovery_session b.session sent.1) session
          (publish_cycle-IsWithin done.0 b) in
      rw (finish_cycle_open real_text parse p a b run) (rw total within)

  -- A pass announces within the budget of its session, and takes from it what it announces.
  pub pass-IsWithin :
      (p : Parser) (a : App) (i : Input)
      → IsWithin a.discovery_session
          (pass real_text parse p a i.chunk i.now i.broker).1.discovery_session
          i.broker.session
          (pass real_text parse p a i.chunk i.now i.broker).2
  unfolding pass discoveries
  pass-IsWithin p a i = elim (Bool-cases (ltb 0 (length i.chunk))) [
    | inl some_ ↦ rw (some_, pass) (omega arith)
    | inr none_ ↦ elim (Bool-cases (not (cycle_ended i.now a.last_byte (length a.cycle)))) [
      | inl running ↦ rw (none_, running, pass) (omega arith)
      | inr over ↦ rw (none_, over, pass) (finish_cycle-IsWithin p a i.broker)
    ]
  ]

  finish_cycle_silent :
      (p : Parser) (a : App) (b : Broker)
      → b.connected ≡ false
      → (states (finish_cycle real_text parse p a b).2 ≡ [])
        × (discoveries (finish_cycle real_text parse p a b).2 ≡ [])
  unfolding states discoveries
  finish_cycle_silent p a b down =
      let rest = drop (leading_flags a.cycle) a.cycle in
      let fresh : App = record a { values = 0; set = clear } in
      let (q, cs, n, run, same) =
        parse_from-Run real_text parse (length rest) p fresh 0 rest (omega arith) in
      let line = judge-Judged (on_values real_text fresh cs) n in
      let done = judged real_text parse p a b cs n in
      let quiet = publish_cycle_quiet done.0 b (inl down) in
      rw (finish_cycle_open real_text parse p a b run, quiet)
        (
          states-append done.1 [] ∙ rw line.states_none refl,
          discoveries-append done.1 [] ∙ rw line.discoveries_none refl,
        )

  -- Without the broker a pass sends nothing.
  pub pass_silent :
      (p : Parser) (a : App) (i : Input)
      → i.broker.connected ≡ false
      → (states (pass real_text parse p a i.chunk i.now i.broker).2 ≡ [])
        × (discoveries (pass real_text parse p a i.chunk i.now i.broker).2 ≡ [])
  unfolding pass states discoveries
  pass_silent p a i down = elim (Bool-cases (ltb 0 (length i.chunk))) [
    | inl some_ ↦ rw (some_, pass) (refl, refl)
    | inr none_ ↦ elim (Bool-cases (not (cycle_ended i.now a.last_byte (length a.cycle)))) [
      | inl running ↦ rw (none_, running, pass) (refl, refl)
      | inr over ↦ rw (none_, over, pass) (finish_cycle_silent p a i.broker down)
    ]
  ]
