-- ===== src/App/Pulses.antt =====
-- main/app_main.cpp: the pulses of the LED, against the messages of the cycles.
use gplug_mini.Base.{
  ℕ, suc, ◌+◌, ◌≡◌, refl, ap, not, List, [], ◌∷◌, ◌++◌, Option, none, some, Bytes, ltb, leb, ◌==◌,
  length, length-append, drop, arith, Bool-cases, inl, inr,
}
use gplug_mini.Aggregator.{cycle_ended}
use gplug_mini.CycleSet.{clear, is_empty}
use gplug_mini.Framing.{leading_flags}
use gplug_mini.Obis.{ObisEntry, obis_lookup}
use gplug_mini.App.{
  App, Effect, Broker, Parsed, is_nil, framed, judge, on_values, announce, announce_all,
  discovery_codes, publish_discovery, publish_state, publish_cycle, finish_cycle, pass,
}
use gplug_mini.App.Publish.{states, states-append}
use gplug_mini.App.Loop.{parse_from-Run}
use gplug_mini.App.Cycle.{judged, finish_cycle_open}
use gplug_mini.App.Passes.{Input, passes}

-- The pulses among the effects.
unfoldable pub pulses : List Effect → ℕ
pulses [] = 0
pulses (Effect.pulse ∷ es) = suc (pulses es)
pulses (_ ∷ es) = pulses es

pulses-append : (xs ys : List Effect) → pulses (xs ++ ys) ≡ pulses xs + pulses ys
unfolding pulses
pulses-append [] ys = omega arith
pulses-append (Effect.state s ∷ xs) ys = pulses-append xs ys
pulses-append (Effect.discovery t s ∷ xs) ys = pulses-append xs ys
pulses-append (Effect.pulse ∷ xs) ys = omega (arith, pulses-append xs ys)
pulses-append (Effect.next_line ∷ xs) ys = pulses-append xs ys

-- As many pulses as state messages.
IsMatched : List Effect → Type 0
IsMatched es = pulses es ≡ length (states es)

append-IsMatched : (xs ys : List Effect) → IsMatched xs → IsMatched ys → IsMatched (xs ++ ys)
unfolding IsMatched
append-IsMatched xs ys h k =
    let sum = ap length (states-append xs ys) in
    let size = length-append (states xs) (states ys) in
    omega (arith, pulses-append xs ys, sum, size, h, k)

announce-IsMatched : (serial mac : Bytes) (o : Option ObisEntry) → IsMatched (announce serial mac o)
unfolding IsMatched announce pulses states
announce-IsMatched serial mac none = refl
announce-IsMatched serial mac (some e) = ground arith

announce_all-IsMatched :
    (serial mac : Bytes) (cs : List Bytes) → IsMatched (announce_all serial mac cs)
unfolding announce_all IsMatched pulses states
announce_all-IsMatched serial mac [] = refl
announce_all-IsMatched serial mac (c ∷ cs) =
    append-IsMatched (announce serial mac (obis_lookup c)) (announce_all serial mac cs)
      (announce-IsMatched serial mac (obis_lookup c)) (announce_all-IsMatched serial mac cs)

publish_state-IsMatched : (a : App) → IsMatched (publish_state a).1
unfolding publish_state IsMatched pulses states
publish_state-IsMatched a = elim (Bool-cases (is_empty a.set)) [
  | inl e ↦ rw (e, publish_state) refl
  | inr e ↦ rw (e, publish_state) refl
]

publish_discovery-IsMatched : (a : App) (b : Broker) → IsMatched (publish_discovery a b).1
unfolding publish_discovery IsMatched pulses states
publish_discovery-IsMatched a b = elim (Bool-cases (a.discovery_session == b.session)) [
  | inl e ↦ rw (e, publish_discovery) refl
  | inr e ↦ rw (e, publish_discovery) (announce_all-IsMatched a.serial b.mac discovery_codes)
]

publish_cycle-IsMatched : (a : App) (b : Broker) → IsMatched (publish_cycle a b).1
unfolding publish_cycle IsMatched pulses states
publish_cycle-IsMatched a b = elim (Bool-cases (not b.connected)) [
  | inl down ↦ rw (down, publish_cycle) refl
  | inr up ↦ elim (Bool-cases (is_nil a.serial)) [
    | inl nil ↦ rw (up, nil, publish_cycle) refl
    | inr known ↦
        rw (up, known, publish_cycle)
          (append-IsMatched (publish_discovery a b).1 (publish_state (publish_discovery a b).0).1
            (publish_discovery-IsMatched a b) (publish_state-IsMatched (publish_discovery a b).0))
  ]
]

judge-IsMatched : (a : App) (objects : ℕ) → IsMatched (judge a objects).1
unfolding judge IsMatched pulses states
judge-IsMatched a objects = elim (Bool-cases (not (objects == 0))) [
  | inl e ↦ rw (e, judge) refl
  | inr e ↦ elim (Bool-cases (framed a.cycle)) [
    | inl f ↦ rw (e, f, judge) refl
    | inr f ↦ elim (Bool-cases (leb 2 (a.undecoded + 1))) [
      | inl g ↦ rw (e, f, g, judge) refl
      | inr g ↦ rw (e, f, g, judge) refl
    ]
  ]
]

module _ {Real Parser : Type 0} (real_text : Real → Bytes)
    (parse : Parser → Bytes → Parser × Parsed Real) where
  finish_cycle-IsMatched :
      (p : Parser) (a : App) (b : Broker) → IsMatched (finish_cycle real_text parse p a b).2
  finish_cycle-IsMatched p a b =
      let rest = drop (leading_flags a.cycle) a.cycle in
      let fresh : App = record a { values = 0; set = clear } in
      let (q, cs, n, run, same) =
        parse_from-Run real_text parse (length rest) p fresh 0 rest (omega arith) in
      let done = judged real_text parse p a b cs n in
      rw (finish_cycle_open real_text parse p a b run) (
        append-IsMatched done.1 (publish_cycle done.0 b).1
          (judge-IsMatched (on_values real_text fresh cs) n) (publish_cycle-IsMatched done.0 b))

  pass-IsMatched :
      (p : Parser) (a : App) (i : Input)
      → IsMatched (pass real_text parse p a i.chunk i.now i.broker).2
  unfolding pass IsMatched pulses states
  pass-IsMatched p a i = elim (Bool-cases (ltb 0 (length i.chunk))) [
    | inl some_ ↦ rw (some_, pass) refl
    | inr none_ ↦ elim (Bool-cases (not (cycle_ended i.now a.last_byte (length a.cycle)))) [
      | inl running ↦ rw (none_, running, pass) refl
      | inr over ↦ rw (none_, over, pass) (finish_cycle-IsMatched p a i.broker)
    ]
  ]

  -- Over any number of passes, the LED is pulsed once for each state message that is sent, and not for
  -- anything else.
  pub passes-pulses :
      (p : Parser) (a : App) (is : List Input)
      → pulses (passes real_text parse p a is).2 ≡ length (states (passes real_text parse p a is).2)
  unfolding passes IsMatched pulses states
  passes-pulses p a [] = refl
  passes-pulses p a (i ∷ is) =
      let r = pass real_text parse p a i.chunk i.now i.broker in
      append-IsMatched r.2 (passes real_text parse r.0 r.1 is).2 (pass-IsMatched p a i)
        (passes-pulses r.0 r.1 is)
