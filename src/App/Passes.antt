-- ===== src/App/Passes.antt =====
-- The main loop over any number of passes: its bounds, and what a broker session is told.
use gplug_mini.Base.{
  ℕ, ◌+◌, ◌≤◌, ◌≡◌, refl, sym, ◌∙◌, not, List, [], ◌∷◌, ◌++◌, Bytes, ltb, leb, ◌==◌, length,
  length-append, drop, All, arith, Bool-cases, inl, inr,
}
use gplug_mini.Aggregator.{cycle_ended}
use gplug_mini.CycleSet.{clear, is_empty}
use gplug_mini.CycleSet.Bounds.{IsWithin, clear-IsWithin, add_all-IsWithin, json_text-IsWithin}
use gplug_mini.Framing.{leading_flags}
use gplug_mini.App.{
  App, Effect, Broker, Parsed, max_cycle, is_nil, on_values, framed, judge, publish_state,
  publish_discovery, publish_cycle, finish_cycle, pass,
}
use gplug_mini.App.Values.{readings, on_values-set, on_values-serial-le, on_values-keeps}
use gplug_mini.App.Publish.{
  discoveries, discoveries-append, publish_state-sent, publish_cycle_open, publish_cycle_quiet,
}
use gplug_mini.App.Loop.{parse_from-Run}
use gplug_mini.App.Cycle.{judge-Judged, judged, finish_cycle_open}

-- What a pass meets: the bytes that the source delivered, the time, and the broker.
pub record Input : Type 0 where
  pub chunk : Bytes
  pub now : ℕ
  pub broker : Broker

-- `chunk[256]` bounds what the source delivers at once.
abbrev pub IsInput : Input → Type 0
IsInput i = length i.chunk ≤ 256

-- The bounds of the loop's variables: `MAX_CYCLE`, the array of the serial, the count of undecoded
-- cycles, and the arrays of the cycle's set.
pub record IsBounded (a : App) : Type 0 where
  pub cycle_le : length a.cycle ≤ max_cycle
  pub serial_le : length a.serial ≤ 31
  pub undecoded_le : a.undecoded ≤ 1
  pub set : IsWithin a.set

judge-undecoded : (a : App) (objects : ℕ) → (judge a objects).0.undecoded ≤ 1
unfolding judge
judge-undecoded a objects = elim (Bool-cases (not (objects == 0))) [
  | inl e ↦ rw (e, judge) (omega arith)
  | inr e ↦ elim (Bool-cases (framed a.cycle)) [
    | inl f ↦ rw (e, f, judge) (omega arith)
    | inr f ↦ elim (Bool-cases (leb 2 (a.undecoded + 1))) [
      | inl g ↦ rw (e, f, g, judge) (omega arith)
      | inr g ↦ rw (e, f, g, judge) (ground arith)
    ]
  ]
]

-- What publishing leaves alone, and that it discovers nothing in a session that was announced.
record Published (a : App) (b : Broker) (r : App × List Effect) : Type 0 where
  serial : r.0.serial ≡ a.serial
  undecoded : r.0.undecoded ≡ a.undecoded
  set : IsWithin a.set → IsWithin r.0.set
  again :
      a.discovery_session ≡ b.session → (r.0.discovery_session ≡ b.session) × (discoveries r.1 ≡ [])

publish_state-keeps :
    (a : App)
    → ((publish_state a).0.serial ≡ a.serial)
      × ((publish_state a).0.undecoded ≡ a.undecoded)
      × (IsWithin a.set → IsWithin (publish_state a).0.set)
unfolding publish_state
publish_state-keeps a = elim (Bool-cases (is_empty a.set)) [
  | inl e ↦ rw (e, publish_state) (refl, refl, λ h. h)
  | inr e ↦ rw (e, publish_state) (refl, refl, json_text-IsWithin a.set)
]

quiet : (a : App) (b : Broker) → publish_cycle a b ≡ (a, []) → Published a b (publish_cycle a b)
unfolding discoveries
quiet a b h =
    rw h (record { serial = refl; undecoded = refl; set = λ w. w; again = λ s. (s, refl) })

publish_cycle-Published : (a : App) (b : Broker) → Published a b (publish_cycle a b)
unfolding publish_discovery
publish_cycle-Published a b = elim (Bool-cases b.connected) [
  | inr down ↦ quiet a b (publish_cycle_quiet a b (inl down))
  | inl up ↦ elim (Bool-cases (is_nil a.serial)) [
    | inl nil ↦ quiet a b (publish_cycle_quiet a b (inr (ground arith)))
    | inr known ↦
        let open_ = publish_cycle_open a b up (ground arith) in
        elim (Bool-cases (a.discovery_session == b.session)) [
          | inl same ↦
              let keeps = publish_state-keeps a in
              let sent = publish_state-sent a in
              rw (open_, same, publish_discovery)
                record {
                  serial = keeps.0;
                  undecoded = keeps.1;
                  set = keeps.2;
                  again = λ s. (sent.2 ∙ s, sent.1);
                }
          | inr other ↦
              let keeps = publish_state-keeps (record a { discovery_session = b.session }) in
              rw (open_, other, publish_discovery)
                record {
                  serial = keeps.0;
                  undecoded = keeps.1;
                  set = keeps.2;
                  again = λ s. absurd (ground arith);
                }
        ]
  ]
]

module _ {Real Parser : Type 0} (real_text : Real → Bytes)
    (parse : Parser → Bytes → Parser × Parsed Real) where
  finish_cycle-IsBounded :
      (p : Parser) (a : App) (b : Broker)
      → length a.serial ≤ 31
      → IsBounded (finish_cycle real_text parse p a b).1
  finish_cycle-IsBounded p a b h =
      let rest = drop (leading_flags a.cycle) a.cycle in
      let fresh : App = record a { values = 0; set = clear } in
      let (q, cs, n, run, same) =
        parse_from-Run real_text parse (length rest) p fresh 0 rest (omega arith) in
      let sent = publish_cycle-Published (judged real_text parse p a b cs n).0 b in
      let serial = sent.serial ∙ (judge-Judged (on_values real_text fresh cs) n).serial in
      let short = on_values-serial-le real_text fresh cs h in
      let line = judge-Judged (on_values real_text fresh cs) n in
      let set : IsWithin (judged real_text parse p a b cs n).0.set =
        rw (line.set, on_values-set real_text fresh cs)
          (add_all-IsWithin clear (readings real_text cs) clear-IsWithin) in
      let doubt = judge-undecoded (on_values real_text fresh cs) n in
      rw (finish_cycle_open real_text parse p a b run) record {
        cycle_le = omega arith;
        serial_le = rw serial short;
        undecoded_le = rw sent.undecoded doubt;
        set = sent.set set;
      }

  finish_cycle_known :
      (p : Parser) (a : App) (b : Broker)
      → a.discovery_session ≡ b.session
      → ((finish_cycle real_text parse p a b).1.discovery_session ≡ b.session)
        × (discoveries (finish_cycle real_text parse p a b).2 ≡ [])
  finish_cycle_known p a b h =
      let rest = drop (leading_flags a.cycle) a.cycle in
      let fresh : App = record a { values = 0; set = clear } in
      let (q, cs, n, run, same) =
        parse_from-Run real_text parse (length rest) p fresh 0 rest (omega arith) in
      let line = judge-Judged (on_values real_text fresh cs) n in
      let session = line.session ∙ (on_values-keeps real_text fresh cs).1 ∙ h in
      let sent = publish_cycle-Published (judged real_text parse p a b cs n).0 b in
      let all =
        discoveries-append (judged real_text parse p a b cs n).1
          (publish_cycle (judged real_text parse p a b cs n).0 b).1 in
      rw (finish_cycle_open real_text parse p a b run)
        ((sent.again session).0, all ∙ rw line.discoveries_none (sent.again session).1)

  -- The loop, over the inputs of its passes.
  unfoldable pub passes : Parser → App → List Input → Parser × App × List Effect
  passes p a [] = (p, a, [])
  passes p a (i ∷ is) =
      let (p1, a1, done) = pass real_text parse p a i.chunk i.now i.broker in
      let (p2, a2, later) = passes p1 a1 is in (p2, a2, done ++ later)

  pub pass-IsBounded :
      (p : Parser) (a : App) (i : Input)
      → IsInput i
      → IsBounded a
      → IsBounded (pass real_text parse p a i.chunk i.now i.broker).1
  unfolding pass
  pass-IsBounded p a i small h = elim (Bool-cases (ltb 0 (length i.chunk))) [
    | inl some ↦ elim (Bool-cases (ltb max_cycle (length a.cycle + length i.chunk))) [
      | inl over ↦
          rw (some, over, pass)
            record {
              cycle_le = omega arith;
              serial_le = h.serial_le;
              undecoded_le = h.undecoded_le;
              set = h.set;
            }
      | inr fits ↦
          rw (some, fits, pass)
            record {
              cycle_le = ground (arith, length-append a.cycle i.chunk);
              serial_le = h.serial_le;
              undecoded_le = h.undecoded_le;
              set = h.set;
            }
    ]
    | inr none ↦ elim (Bool-cases (not (cycle_ended i.now a.last_byte (length a.cycle)))) [
      | inl running ↦ rw (none, running, pass) h
      | inr over ↦ rw (none, over, pass) (finish_cycle-IsBounded p a i.broker h.serial_le)
    ]
  ]

  -- From variables in their bounds, chunks of at most 256 bytes keep them there, for any
  -- number of passes and whatever the bytes, the parser and the broker: a cycle of at most
  -- 2048 bytes, a serial of at most 31 characters, at most one undecoded cycle counted, and a set within
  -- its arrays.
  pub passes-IsBounded :
      (p : Parser) (a : App) (is : List Input)
      → All IsInput is
      → IsBounded a
      → IsBounded (passes p a is).1
  unfolding passes
  passes-IsBounded p a [] small h = h
  passes-IsBounded p a (i ∷ is) small h =
      passes-IsBounded (pass real_text parse p a i.chunk i.now i.broker).0
        (pass real_text parse p a i.chunk i.now i.broker).1 is small.1
        (pass-IsBounded p a i small.0 h)

  pass_known :
      (p : Parser) (a : App) (i : Input)
      → a.discovery_session ≡ i.broker.session
      → ((pass real_text parse p a i.chunk i.now i.broker).1.discovery_session ≡ i.broker.session)
        × (discoveries (pass real_text parse p a i.chunk i.now i.broker).2 ≡ [])
  unfolding pass discoveries
  pass_known p a i h = elim (Bool-cases (ltb 0 (length i.chunk))) [
    | inl some ↦ rw (some, pass) (h, refl)
    | inr none ↦ elim (Bool-cases (not (cycle_ended i.now a.last_byte (length a.cycle)))) [
      | inl running ↦ rw (none, running, pass) (h, refl)
      | inr over ↦ rw (none, over, pass) (finish_cycle_known p a i.broker h)
    ]
  ]

  -- Once a broker session has been announced, no pass announces anything again for as long as the
  -- session lasts.
  pub passes_known :
      (session : ℕ) (p : Parser) (a : App) (is : List Input)
      → All (λ i. i.broker.session ≡ session) is
      → a.discovery_session ≡ session
      → discoveries (passes p a is).2 ≡ []
  unfolding passes discoveries
  passes_known session p a [] same h = refl
  passes_known session p a (i ∷ is) same h =
      let one = pass_known p a i (h ∙ sym same.0) in
      let (p1, a1, done) = pass real_text parse p a i.chunk i.now i.broker in
      let later = passes_known session p1 a1 is same.1 (one.0 ∙ same.0) in
      discoveries-append done (passes p1 a1 is).2 ∙ rw one.1 later
