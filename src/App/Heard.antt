-- ===== src/App/Heard.antt =====
-- main/app_main.cpp: what the main loop takes in from the meter, apart from what it publishes.
use gplug_mini.Base.{
  ℕ, suc, ◌+◌, ◌≡◌, refl, sym, ap, ◌∙◌, false, not, List, [], ◌∷◌, ◌++◌, Option, none, some, Bytes,
  leb, ltb, ◌==◌, length, drop, arith, Bool-cases, inl, inr,
}
use gplug_mini.Aggregator.{cycle_ended}
use gplug_mini.CycleSet.{clear, is_empty}
use gplug_mini.Framing.{leading_flags}
use gplug_mini.Obis.{ObisEntry, obis_lookup}
use gplug_mini.App.{
  App, Effect, Broker, Capture, Parsed, is_nil, on_values, announce, announce_all, discovery_codes,
  framed, judge, publish_state, publish_discovery, publish_cycle, finish_cycle, pass,
}
use gplug_mini.App.Values.{on_values-keeps}
use gplug_mini.App.Serial.{learned, on_values-learned}
use gplug_mini.App.Loop.{Run, parse_from-Run}
use gplug_mini.App.Cycle.{judged, finish_cycle_open}

-- The loop's variables without the cycle's message and the session that was announced.
pub record Heard : Type 0 where
  pub cycle : Bytes
  pub last_byte : ℕ
  pub serial : Bytes
  pub undecoded : ℕ

abbrev pub heard : App → Heard
heard a = record {
  cycle = a.cycle;
  last_byte = a.last_byte;
  serial = a.serial;
  undecoded = a.undecoded;
}

-- How often the next line is asked for.
unfoldable pub lines : List Effect → ℕ
lines [] = 0
lines (Effect.next_line ∷ es) = suc (lines es)
lines (_ ∷ es) = lines es

lines-append : (xs ys : List Effect) → lines (xs ++ ys) ≡ lines xs + lines ys
unfolding lines
lines-append [] ys = omega arith
lines-append (Effect.next_line ∷ xs) ys = omega (arith, lines-append xs ys)
lines-append (Effect.discovery t s ∷ xs) ys = lines-append xs ys
lines-append (Effect.state s ∷ xs) ys = lines-append xs ys
lines-append (Effect.pulse ∷ xs) ys = lines-append xs ys

-- A device of which only these variables are known, as one that never had a network.
abbrev pub alone : Heard → App
alone h = record {
  cycle = h.cycle;
  last_byte = h.last_byte;
  set = clear;
  serial = h.serial;
  discovery_session = 0;
  undecoded = h.undecoded;
  values = 0;
}

-- `judge` on these variables.
weigh : Heard → ℕ → Heard × ℕ
weigh h n = let r = judge (alone h) n in (heard r.0, lines r.1)

judge-weigh :
    (a : App) (n : ℕ)
    → ◌≡◌ {A = Heard × ℕ} (heard (judge a n).0, lines (judge a n).1) (weigh (heard a) n)
unfolding weigh judge lines
judge-weigh a n = elim (Bool-cases (not (n == 0))) [
  | inl e ↦ rw (e, judge) refl
  | inr e ↦ elim (Bool-cases (framed a.cycle)) [
    | inl f ↦ rw (e, f, judge) refl
    | inr f ↦ elim (Bool-cases (leb 2 (a.undecoded + 1))) [
      | inl g ↦ rw (e, f, g, judge) refl
      | inr g ↦ rw (e, f, g, judge) refl
    ]
  ]
]

announce-lines : (serial mac : Bytes) (o : Option ObisEntry) → lines (announce serial mac o) ≡ 0
unfolding announce lines
announce-lines serial mac none = refl
announce-lines serial mac (some e) = ground arith

announce_all-lines : (serial mac : Bytes) (cs : List Bytes) → lines (announce_all serial mac cs) ≡ 0
unfolding announce_all lines
announce_all-lines serial mac [] = refl
announce_all-lines serial mac (c ∷ cs) =
    let one = announce-lines serial mac (obis_lookup c) in
    let rest = announce_all-lines serial mac cs in
    let sum = lines-append (announce serial mac (obis_lookup c)) (announce_all serial mac cs) in
    omega (arith, one, rest, sum)

-- What publishing leaves alone.
record Unheard (a : App) (r : App × List Effect) : Type 0 where
  same : heard r.0 ≡ heard a
  none_asked : lines r.1 ≡ 0

publish_state-Unheard : (a : App) → Unheard a (publish_state a)
unfolding publish_state lines
publish_state-Unheard a = elim (Bool-cases (is_empty a.set)) [
  | inl e ↦ rw (e, publish_state) record { same = refl; none_asked = refl }
  | inr e ↦ rw (e, publish_state) record { same = refl; none_asked = refl }
]

publish_discovery-Unheard : (a : App) (b : Broker) → Unheard a (publish_discovery a b)
unfolding publish_discovery lines
publish_discovery-Unheard a b = elim (Bool-cases (a.discovery_session == b.session)) [
  | inl e ↦ rw (e, publish_discovery) record { same = refl; none_asked = refl }
  | inr e ↦
      rw (e, publish_discovery)
        record { same = refl; none_asked = announce_all-lines a.serial b.mac discovery_codes }
]

publish_cycle-Unheard : (a : App) (b : Broker) → Unheard a (publish_cycle a b)
unfolding publish_cycle lines
publish_cycle-Unheard a b = elim (Bool-cases (not b.connected)) [
  | inl down ↦ rw (down, publish_cycle) record { same = refl; none_asked = refl }
  | inr up ↦ elim (Bool-cases (is_nil a.serial)) [
    | inl nil ↦ rw (up, nil, publish_cycle) record { same = refl; none_asked = refl }
    | inr known ↦
        let first = publish_discovery-Unheard a b in
        let then_ = publish_state-Unheard (publish_discovery a b).0 in
        let sum =
          lines-append (publish_discovery a b).1 (publish_state (publish_discovery a b).0).1 in
        rw (up, known, publish_cycle)
          record {
            same = then_.same ∙ first.same;
            none_asked = omega (arith, sum, first.none_asked, then_.none_asked);
          }
  ]
]

abbrev pub off : Broker
off = record { connected = false; session = 0; mac = [] }

-- The parser, these variables, and the lines asked for, of what a pass gives.
abbrev pub of_pass : {Parser : Type 0} → Parser × App × List Effect → Parser × Heard × ℕ
of_pass r = (r.0, heard r.1, lines r.2)

module _ {Real Parser : Type 0} (real_text : Real → Bytes)
    (parse : Parser → Bytes → Parser × Parsed Real) where
  on_values-heard :
      (a : App) (cs : List (Capture Real))
      → heard (on_values real_text a cs)
        ≡ record (heard a) { serial = learned real_text a.serial cs }
  on_values-heard a cs =
      let keeps = on_values-keeps real_text a cs in
      let serial = on_values-learned real_text a cs in
      λ i. record {
        cycle = keeps.0 i;
        last_byte = keeps.3 i;
        serial = serial i;
        undecoded = keeps.2 i;
      }

  -- What the end of a cycle with these values leaves of these variables.
  ended : Parser → Heard → List (Capture Real) → ℕ → Parser × Heard × ℕ
  ended q h cs n =
      let w = weigh (record h { serial = learned real_text h.serial cs }) n in
      (q, record w.0 { cycle = [] }, w.1)

  finish_cycle-ended :
      (p : Parser) (a : App) (b : Broker) {q : Parser} {cs : List (Capture Real)} {n : ℕ}
      → Run real_text parse p (drop (leading_flags a.cycle) a.cycle) q cs n
      → ◌≡◌ {A = Parser × Heard × ℕ}
          (of_pass (finish_cycle real_text parse p a b))
          (ended q (heard a) cs n)
  unfolding ended
  finish_cycle-ended p a b {q} {cs} {n} run =
      let fresh : App = record a { values = 0; set = clear } in
      let done = judged real_text parse p a b cs n in
      let quiet = publish_cycle-Unheard done.0 b in
      let sum = lines-append done.1 (publish_cycle done.0 b).1 in
      let count : lines (done.1 ++ (publish_cycle done.0 b).1) ≡ lines done.1 =
        omega (arith, sum, quiet.none_asked) in
      let weighed : ◌≡◌ {A = Heard × ℕ} (heard done.0, lines done.1)
          (weigh (record (heard a) { serial = learned real_text a.serial cs }) n) =
        judge-weigh (on_values real_text fresh cs) n
        ∙ ap (λ (h : Heard). weigh h n) (on_values-heard fresh cs) in
      let sent : ◌≡◌ {A = Parser × Heard × ℕ}
          (of_pass (
            q,
            record (publish_cycle done.0 b).0 { cycle = [] },
            done.1 ++ (publish_cycle done.0 b).1,
          ))
          (q, record (heard done.0) { cycle = [] }, lines done.1) =
        λ i. (q, record (quiet.same i) { cycle = [] }, count i) in
      ap of_pass (finish_cycle_open real_text parse p a b run)
      ∙ sent
      ∙ ap (λ (w : Heard × ℕ). (q, record w.0 { cycle = [] }, w.1)) weighed

  -- A pass, as it would go for a device that never had a network.
  abbrev pub listen : Parser → Heard → Bytes → ℕ → Parser × Heard × ℕ
  listen p h chunk now = of_pass (pass real_text parse p (alone h) chunk now off)

  pub pass-listen :
      (p : Parser) (a : App) (chunk : Bytes) (now : ℕ) (b : Broker)
      → ◌≡◌ {A = Parser × Heard × ℕ}
          (of_pass (pass real_text parse p a chunk now b))
          (listen p (heard a) chunk now)
  unfolding pass
  pass-listen p a chunk now b = elim (Bool-cases (ltb 0 (length chunk))) [
    | inl some_ ↦ rw (some_, pass) refl
    | inr none_ ↦ elim (Bool-cases (not (cycle_ended now a.last_byte (length a.cycle)))) [
      | inl running ↦ rw (none_, running, pass) refl
      | inr over ↦
          let rest = drop (leading_flags a.cycle) a.cycle in
          let fresh : App = record a { values = 0; set = clear } in
          let (q, cs, n, run, same) =
            parse_from-Run real_text parse (length rest) p fresh 0 rest (omega arith) in
          let here = finish_cycle-ended p a b run in
          let there = finish_cycle-ended p (alone (heard a)) off run in
          rw (none_, over, pass) (here ∙ sym there)
    ]
  ]
