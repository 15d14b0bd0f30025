-- ===== src/App/Publish.antt =====
-- `publish_cycle` of main/app_main.cpp: what is sent at the end of a cycle.
use gplug_mini.Base.{
  ℕ, ◌<◌, ◌≡◌, ◌≢◌, ◌⊎◌, refl, ap, ◌∙◌, true, false, List, [], ◌∷◌, ◌++◌, some, Bytes, ◌==◌,
  if◌then◌else◌, length, All, arith, Bool-cases, inl, inr, str_eq, append-nil,
}
use gplug_mini.CycleSet.{is_empty, json_text}
use gplug_mini.Discovery.{Classes, classes_for, discovery_topic_text, payload_parts}
use gplug_mini.Discovery.Payload.{payload_of}
use gplug_mini.Discovery.Fits.{discovery_fits}
use gplug_mini.Obis.{ObisEntry, obis_lookup, lookup_in, table}
use gplug_mini.App.{
  App, Effect, Broker, announce, announce_all, discovery_codes, publish_state, publish_discovery,
  publish_cycle,
}

-- The payloads of the state messages among the effects.
unfoldable pub states : List Effect → List Bytes
states [] = []
states (Effect.state s ∷ es) = s ∷ states es
states (_ ∷ es) = states es

-- The discovery messages among the effects, topic and payload.
unfoldable pub discoveries : List Effect → List (Bytes × Bytes)
discoveries [] = []
discoveries (Effect.discovery t s ∷ es) = (t, s) ∷ discoveries es
discoveries (_ ∷ es) = discoveries es

pub states-append : (xs ys : List Effect) → states (xs ++ ys) ≡ states xs ++ states ys
unfolding states
states-append [] ys = refl
states-append (Effect.state s ∷ xs) ys = ap (◌∷◌ s) (states-append xs ys)
states-append (Effect.discovery t s ∷ xs) ys = states-append xs ys
states-append (Effect.pulse ∷ xs) ys = states-append xs ys
states-append (Effect.next_line ∷ xs) ys = states-append xs ys

pub discoveries-append :
    (xs ys : List Effect) → discoveries (xs ++ ys) ≡ discoveries xs ++ discoveries ys
unfolding discoveries
discoveries-append [] ys = refl
discoveries-append (Effect.state s ∷ xs) ys = discoveries-append xs ys
discoveries-append (Effect.discovery t s ∷ xs) ys = ap (◌∷◌ (t, s)) (discoveries-append xs ys)
discoveries-append (Effect.pulse ∷ xs) ys = discoveries-append xs ys
discoveries-append (Effect.next_line ∷ xs) ys = discoveries-append xs ys

-- One entity for each code: its own topic, and the whole payload of its register.
pub data Entities (serial mac : Bytes) : List Bytes → List (Bytes × Bytes) → Type 0 where
  nothing : Entities serial mac [] []
  entity :
      {code : Bytes} {rest : List Bytes} {sent : List (Bytes × Bytes)} {e : ObisEntry} {c : Classes}
      → obis_lookup code ≡ some e
      → classes_for e.kind ≡ some c
      → Entities serial mac rest sent
      → Entities serial mac
          (code ∷ rest)
          ((discovery_topic_text serial e.label, payload_of e c serial mac) ∷ sent)

-- A code of a sensor, with its row and its classes.
Sensor : Bytes → Type 0
Sensor code =
    (e : ObisEntry) × (c : Classes) × (obis_lookup code ≡ some e) × (classes_for e.kind ≡ some c)

discovery_codes-Sensor : All Sensor discovery_codes
unfolding Sensor obis_lookup lookup_in table str_eq classes_for
discovery_codes-Sensor = (
  (_, _, refl, refl),
  (
    (_, _, refl, refl),
    (
      (_, _, refl, refl),
      (
        (_, _, refl, refl),
        ((_, _, refl, refl), ((_, _, refl, refl), ((_, _, refl, refl), ((_, _, refl, refl), tt)))),
      ),
    ),
  ),
)

pub nonzero : (n : ℕ) → 0 < n → (n == 0) ≡ false
nonzero n h = ground arith

payload_of-pos :
    (e : ObisEntry) (c : Classes) (serial mac : Bytes) → 0 < length (payload_of e c serial mac)
unfolding payload_parts
payload_of-pos e c serial mac = omega arith

-- A sensor with a serial and an address of ordinary length is announced: both texts fit.
announce_one :
    (serial mac code : Bytes) {e : ObisEntry} {c : Classes}
    → length serial < 32
    → length mac < 18
    → obis_lookup code ≡ some e
    → classes_for e.kind ≡ some c
    → announce serial mac (obis_lookup code)
      ≡ Effect.discovery (discovery_topic_text serial e.label) (payload_of e c serial mac) ∷ []
unfolding announce
announce_one serial mac code {e} {c} s m found sensor =
    let fits = discovery_fits code serial mac found sensor s m in
    let topic = nonzero (length (discovery_topic_text serial e.label)) (omega arith) in
    let payload = nonzero (length (payload_of e c serial mac)) (payload_of-pos e c serial mac) in
    rw (found, announce, fits.0, fits.1, topic, payload) refl

announce_all-Entities :
    (serial mac : Bytes) (cs : List Bytes)
    → length serial < 32
    → length mac < 18
    → All Sensor cs
    → Entities serial mac cs (discoveries (announce_all serial mac cs))
      × (states (announce_all serial mac cs) ≡ [])
unfolding announce_all discoveries states Sensor
announce_all-Entities serial mac [] s m h = (nothing, refl)
announce_all-Entities serial mac (code ∷ rest) s m h =
    let (e, c, found, sensor) = h.0 in
    let later = announce_all-Entities serial mac rest s m h.1 in
    let one = announce_one serial mac code s m found sensor in
    rw (one, announce_all) (entity found sensor later.0, later.1)

pub publish_state-sent :
    (a : App)
    → (states (publish_state a).1 ≡ (if is_empty a.set then [] else (json_text a.set).1 ∷ []))
      × (discoveries (publish_state a).1 ≡ [])
      × ((publish_state a).0.discovery_session ≡ a.discovery_session)
unfolding publish_state states discoveries
publish_state-sent a = elim (Bool-cases (is_empty a.set)) [
  | inl e ↦ rw (e, publish_state) (refl, refl, refl)
  | inr e ↦ rw (e, publish_state) (refl, refl, refl)
]

module _ (a : App) (b : Broker) where
  -- What one call of `publish_cycle` sends, and what it leaves in the variables.
  pub record Sends : Type 0 where
    pub state_sent :
        states (publish_cycle a b).1 ≡ (if is_empty a.set then [] else (json_text a.set).1 ∷ [])
    pub discovered :
        ((a.discovery_session ≡ b.session) × (discoveries (publish_cycle a b).1 ≡ []))
        ⊎ ((a.discovery_session ≢ b.session)
            × Entities a.serial b.mac discovery_codes (discoveries (publish_cycle a b).1))
    pub session : (publish_cycle a b).0.discovery_session ≡ b.session

  pub publish_cycle_open :
      b.connected ≡ true
      → 0 < length a.serial
      → publish_cycle a b ≡ (
        (publish_state (publish_discovery a b).0).0,
        (publish_discovery a b).1 ++ (publish_state (publish_discovery a b).0).1,
      )
  unfolding publish_cycle
  publish_cycle_open up known = rw (up, nonzero (length a.serial) known) refl

  -- With the broker connected and the meter's serial known, in the lengths that their arrays allow,
  -- one call sends the cycle's message exactly if the set holds a value, and the eight entities, each
  -- whole, exactly if the broker's session is not the one that was announced; it then is.
  pub publish_cycle-Sends :
      b.connected ≡ true → 0 < length a.serial → length a.serial < 32 → length b.mac < 18 → Sends
  unfolding publish_discovery discoveries states
  publish_cycle-Sends up known short mac =
      let whole =
        announce_all-Entities a.serial b.mac discovery_codes short mac discovery_codes-Sensor in
      elim (Bool-cases (a.discovery_session == b.session)) [
        | inl same ↦
            let last = publish_state-sent a in
            record {
              state_sent = rw (publish_cycle_open up known, same, publish_discovery) last.0;
              discovered =
                  inl (
                    ground arith,
                    rw (publish_cycle_open up known, same, publish_discovery) last.1,
                  );
              session =
                  rw (publish_cycle_open up known, same, publish_discovery) (last.2 ∙ ground arith);
            }
        | inr other ↦
            let next : App = record a { discovery_session = b.session } in
            let last = publish_state-sent next in
            let sent = announce_all a.serial b.mac discovery_codes in
            let all =
              discoveries-append sent (publish_state next).1
              ∙ ap (◌++◌ (discoveries sent)) last.1
              ∙ append-nil _ in
            record {
              state_sent =
                  rw (publish_cycle_open up known, other, publish_discovery)
                    (states-append sent (publish_state next).1 ∙ rw (whole.1) last.0);
              discovered = inr (
                λ p. absurd (ground (arith, p)),
                rw (publish_cycle_open up known, other, publish_discovery) (rw all whole.0),
              );
              session = rw (publish_cycle_open up known, other, publish_discovery) last.2;
            }
      ]

  -- Without a broker, or without a serial, nothing is sent and nothing changes, so the discovery is
  -- made up for later.
  pub publish_cycle_quiet : (b.connected ≡ false) ⊎ (a.serial ≡ []) → publish_cycle a b ≡ (a, [])
  unfolding publish_cycle
  publish_cycle_quiet h = ground arith
