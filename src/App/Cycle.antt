-- ===== src/App/Cycle.antt =====
-- The end of a cycle in `app_main`, from the bytes to the message.
use gplug_mini.Base.{
  ℕ, ◌+◌, ◌≤◌, ◌<◌, ◌≡◌, refl, ap, ◌∙◌, true, not, List, [], ◌∷◌, ◌++◌, Option, none, some, Bytes,
  c_str, leb, ◌==◌, if◌then◌else◌, length, drop, take, All, All-append, arith, Bool-cases, inl, inr,
  decimal-pos,
}
use gplug_mini.CycleSet.{clear, json_text, is_empty, json_size, max_values, max_label}
use gplug_mini.CycleSet.Message.{Reading, keep, body, message}
use gplug_mini.CycleSet.Cycle.{add_all, IsShort, json_text-add_all, count-add_all}
use gplug_mini.Framing.{leading_flags}
use gplug_mini.Obis.{ObisEntry, obis_lookup}
use gplug_mini.Obis.Lookup.{obis_lookup-label}
use gplug_mini.App.{
  Capture, App, Effect, Broker, Parsed, raw_from, is_cumulative, on_values, framed, judge,
  publish_cycle, finish_cycle,
}
use gplug_mini.App.Values.{reading, readings, on_values-set, on_values-serial}
use gplug_mini.App.Publish.{states, states-append, discoveries, publish_cycle-Sends}
use gplug_mini.App.Loop.{Run, Run-parse_from}

-- What `judge` leaves alone, and that it publishes nothing.
pub record Judged (a : App) (r : App × List Effect) : Type 0 where
  pub set : r.0.set ≡ a.set
  pub serial : r.0.serial ≡ a.serial
  pub session : r.0.discovery_session ≡ a.discovery_session
  pub states_none : states r.1 ≡ []
  pub discoveries_none : discoveries r.1 ≡ []

pub judge-Judged : (a : App) (objects : ℕ) → Judged a (judge a objects)
unfolding judge states discoveries
judge-Judged a objects = elim (Bool-cases (not (objects == 0))) [
  | inl e ↦ rw (e, judge) same
  | inr e ↦ elim (Bool-cases (framed a.cycle)) [
    | inl f ↦ rw (e, f, judge) same
    | inr f ↦ elim (Bool-cases (leb 2 (a.undecoded + 1))) [
      | inl g ↦
          rw (e, f, g, judge)
            record {
              set = refl;
              serial = refl;
              session = refl;
              states_none = refl;
              discoveries_none = refl;
            }
      | inr g ↦
          rw (e, f, g, judge)
            record {
              set = refl;
              serial = refl;
              session = refl;
              states_none = refl;
              discoveries_none = refl;
            }
    ]
  ]
]
  where
    same : Judged a (record a { undecoded = 0 }, [])
    same = record {
      set = refl;
      serial = refl;
      session = refl;
      states_none = refl;
      discoveries_none = refl;
    }

module _ {Real : Type 0} (real_text : Real → Bytes)
    (some_text : (x : Real) → 0 < length (real_text x)) where
  reading-IsShort :
      (o : Option ObisEntry) (c : Capture Real)
      → ((e : ObisEntry) → o ≡ some e → length e.label < max_label)
      → All IsShort (reading real_text o c)
  unfolding reading
  reading-IsShort none c h = tt
  reading-IsShort (some e) c h = elim (Bool-cases c.numeric) [
    | inl n ↦ elim (Bool-cases (is_cumulative e.kind)) [
      | inl k ↦
          rw (n, k, reading)
            (record { label = h e refl; value = decimal-pos (raw_from 0 c.value) }, tt)
      | inr k ↦ rw (n, k, reading) (record { label = h e refl; value = some_text c.real }, tt)
    ]
    | inr n ↦ rw (n, reading) tt
  ]

  -- The table's labels are short, and the numbers' texts are not empty.
  readings-IsShort : (cs : List (Capture Real)) → All IsShort (readings real_text cs)
  unfolding readings
  readings-IsShort [] = tt
  readings-IsShort (c ∷ cs) =
      All-append IsShort (reading real_text (obis_lookup (c_str (take 39 c.obis))) c)
        (readings real_text cs)
        (reading-IsShort (obis_lookup (c_str (take 39 c.obis))) c
          (λ e f. omega (arith, (obis_lookup-label (c_str (take 39 c.obis)) f).1)))
        (readings-IsShort cs)

-- The registers of a cycle, each with its first reading, for the values that the parser reported.
abbrev pub registers : {Real : Type 0} → (Real → Bytes) → List (Capture Real) → List Reading
registers real_text cs = keep [] (readings real_text cs)

module _ {Real Parser : Type 0} (real_text : Real → Bytes)
    (parse : Parser → Bytes → Parser × Parsed Real) (p : Parser) (a : App) (b : Broker) where
  -- The variables when the values have been taken in and the line is judged, and what that does.
  abbrev pub judged : List (Capture Real) → ℕ → App × List Effect
  judged cs n = judge (on_values real_text (record a { values = 0; set = clear }) cs) n

  pub finish_cycle_open :
      {q : Parser} {cs : List (Capture Real)} {n : ℕ}
      → Run real_text parse p (drop (leading_flags a.cycle) a.cycle) q cs n
      → ◌≡◌ {A = Parser × App × List Effect} (finish_cycle real_text parse p a b) (
        q,
        record (publish_cycle (judged cs n).0 b).0 { cycle = [] },
        (judged cs n).1 ++ (publish_cycle (judged cs n).0 b).1,
      )
  unfolding finish_cycle
  finish_cycle_open {n = n} run =
      let sum : 0 + n ≡ n = omega arith in
      let parsed =
        Run-parse_from real_text parse (length (drop (leading_flags a.cycle) a.cycle))
          (record a { values = 0; set = clear }) 0 run (omega arith) in
      rw (parsed, sum) refl

  judged-set :
      (cs : List (Capture Real)) (n : ℕ)
      → (judged cs n).0.set ≡ add_all clear (readings real_text cs)
  judged-set cs n = (judge-Judged _ n).set ∙ on_values-set real_text _ cs

-- What the end of a cycle sends, and what it leaves.
pub record Finished {Parser : Type 0} (q : Parser) (rs : List Reading)
    (r : Parser × App × List Effect) : Type 0 where
  pub parser : r.0 ≡ q
  pub emptied : r.1.cycle ≡ []
  pub published : states r.2 ≡ (if length rs == 0 then [] else message rs ∷ [])

module _ {Real Parser : Type 0} (real_text : Real → Bytes)
    (some_text : (x : Real) → 0 < length (real_text x))
    (parse : Parser → Bytes → Parser × Parsed Real) (p : Parser) (a : App) (b : Broker) where
  judged_message :
      (cs : List (Capture Real)) (n : ℕ)
      → length (registers real_text cs) ≤ max_values
      → length (body (registers real_text cs)) + 2 < json_size
      → ◌≡◌ {A = List Bytes}
          (if is_empty (judged real_text parse p a b cs n).0.set
            then []
            else (json_text (judged real_text parse p a b cs n).0.set).1 ∷ [])
          (if length (registers real_text cs) == 0
            then []
            else message (registers real_text cs) ∷ [])
  judged_message cs n few fit =
      let rs = readings real_text cs in
      let short = readings-IsShort real_text some_text cs in
      let rows = count-add_all rs short few fit in
      let text = json_text-add_all rs short few fit in
      rw (judged-set real_text parse p a b cs n, rows, text) (ground arith)

  -- The same, where the serial is the one that the cycle leaves.
  pub finish_cycle_learned :
      {q : Parser} {cs : List (Capture Real)} {n : ℕ}
      → Run real_text parse p (drop (leading_flags a.cycle) a.cycle) q cs n
      → b.connected ≡ true
      → 0 < length (on_values real_text (record a { values = 0; set = clear }) cs).serial
      → length (on_values real_text (record a { values = 0; set = clear }) cs).serial < 32
      → length b.mac < 18
      → length (registers real_text cs) ≤ max_values
      → length (body (registers real_text cs)) + 2 < json_size
      → Finished q (registers real_text cs) (finish_cycle real_text parse p a b)
  finish_cycle_learned {q} {cs} {n} run up known short mac few fit =
      let fresh : App = record a { values = 0; set = clear } in
      let line = judge-Judged (on_values real_text fresh cs) n in
      let serial = ap length line.serial in
      let sends =
        publish_cycle-Sends (judged real_text parse p a b cs n).0 b up (rw serial known)
          (rw serial short) mac in
      let all =
        states-append (judged real_text parse p a b cs n).1
          (publish_cycle (judged real_text parse p a b cs n).0 b).1 in
      rw (finish_cycle_open real_text parse p a b run) record {
        parser = refl;
        emptied = refl;
        published = all ∙ rw line.states_none (sends.state_sent ∙ judged_message cs n few fit);
      }

  -- If no `double` has the empty text, the broker is connected and the serial known, in the
  -- lengths that their arrays allow, and the parser, called until the cycle's bytes behind
  -- the leading flags yield no more, reports the values `cs`, of at most 16 registers whose
  -- message fits the buffer with room for the closing brace, then the cycle publishes one
  -- state message, that of the first reading of each register, and none if there is no
  -- reading; and the cycle's bytes are gone.
  pub finish_cycle-Finished :
      {q : Parser} {cs : List (Capture Real)} {n : ℕ}
      → Run real_text parse p (drop (leading_flags a.cycle) a.cycle) q cs n
      → b.connected ≡ true
      → 0 < length a.serial
      → length a.serial < 32
      → length b.mac < 18
      → length (registers real_text cs) ≤ max_values
      → length (body (registers real_text cs)) + 2 < json_size
      → Finished q (registers real_text cs) (finish_cycle real_text parse p a b)
  finish_cycle-Finished {q} {cs} {n} run up known short mac few fit =
      let kept =
        ap length (on_values-serial real_text (record a { values = 0; set = clear }) cs known) in
      finish_cycle_learned run up (rw kept known) (rw kept short) mac few fit
