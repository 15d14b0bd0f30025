-- ===== src/Device/Passed.antt =====
-- The running device while its session stays: the passes of its loop among its other events.
use gplug_mini.Base.{
  ℕ, ◌≡◌, refl, sym, ap, ◌∙◌, true, false, List, [], ◌∷◌, ◌++◌, map, Bytes, ◌==◌, All, Bool-cases,
  inl, inr,
}
use gplug_mini.App.{App, Broker, Effect, Parsed, pass}
use gplug_mini.App.Publish.{states, discoveries, discoveries-append, states-append}
use gplug_mini.App.Passes.{Input, passes}
use gplug_mini.Indicator.{tick}
use gplug_mini.Net.{
  Request, publish, subscribe, mark_valid, mqtt_connected, mqtt_disconnected, mqtt_data, mqtt_error,
  mqtt_other, on_mqtt, on_data,
}
use gplug_mini.Net.Session.{on_data-session}
use gplug_mini.Net.Setup.{mqtt_publish_discovery, mqtt_publish_state}
use gplug_mini.Net.Wifi.{sta_start, sta_disconnected, got_ip, wifi_other, on_wifi}
use gplug_mini.Device.{
  Device, Event, looped, mqtt_event, wifi_event, download_begins, download_fails, led_turn, now_ms,
  act, acts, begins, fails, seen, loop_turn, device_step, device_run,
}
use gplug_mini.Device.Invariant.{acts-Spares}
use gplug_mini.Device.Calm.{on_data-connected}

-- An event that neither opens nor closes a session.
unfoldable pub IsSteady : Event → Type 0
IsSteady (mqtt_event p mqtt_connected) = true ≡ false
IsSteady (mqtt_event p mqtt_disconnected) = true ≡ false
IsSteady (wifi_event sta_disconnected) = true ≡ false
IsSteady _ = Unit

-- The passes of the loop among the events, with what they see of the broker.
unfoldable pub inputs : Broker → List Event → List Input
inputs b [] = []
inputs b (looped chunk us pulse_us ∷ es) =
    record { chunk = chunk; now = now_ms us; broker = b } ∷ inputs b es
inputs b (_ ∷ es) = inputs b es

-- The publications that the broker is not asked to keep: topic and payload.
unfoldable pub passing : List Request → List (Bytes × Bytes)
passing [] = []
passing (publish topic payload qos false ∷ rs) = (topic, payload) ∷ passing rs
passing (_ ∷ rs) = passing rs

passing-append : (xs ys : List Request) → passing (xs ++ ys) ≡ passing xs ++ passing ys
unfolding passing
passing-append [] ys = refl
passing-append (publish t s q true ∷ xs) ys = passing-append xs ys
passing-append (publish t s q false ∷ xs) ys = ap (◌∷◌ (t, s)) (passing-append xs ys)
passing-append (subscribe t q ∷ xs) ys = passing-append xs ys
passing-append (mark_valid ∷ xs) ys = passing-append xs ys

abbrev pub on_topic : Bytes → List Bytes → List (Bytes × Bytes)
on_topic topic payloads = map (λ s. (topic, s)) payloads

on_topic-append :
    (t : Bytes) (xs ys : List Bytes) → on_topic t (xs ++ ys) ≡ on_topic t xs ++ on_topic t ys
on_topic-append t [] ys = refl
on_topic-append t (x ∷ xs) ys = ap (◌∷◌ (t, x)) (on_topic-append t xs ys)

acts-passing :
    {Parser : Type 0}
    → (us : ℕ) (d : Device Parser) (es : List Effect)
    → passing (acts us d es).1 ≡ on_topic d.mqtt.state_top (states es)
unfolding acts act passing states mqtt_publish_discovery mqtt_publish_state
acts-passing us d [] = refl
acts-passing us d (Effect.discovery t s ∷ es) = acts-passing us d es
acts-passing us d (Effect.state s ∷ es) = ap (◌∷◌ (d.mqtt.state_top, s)) (acts-passing us d es)
acts-passing us d (Effect.pulse ∷ es) = acts-passing us (act us d Effect.pulse).0 es
acts-passing us d (Effect.next_line ∷ es) = acts-passing us (act us d Effect.next_line).0 es

-- The publications that the broker is asked to keep: topic and payload.
unfoldable pub kept : List Request → List (Bytes × Bytes)
kept [] = []
kept (publish topic payload qos true ∷ rs) = (topic, payload) ∷ kept rs
kept (_ ∷ rs) = kept rs

kept-append : (xs ys : List Request) → kept (xs ++ ys) ≡ kept xs ++ kept ys
unfolding kept
kept-append [] ys = refl
kept-append (publish t s q true ∷ xs) ys = ap (◌∷◌ (t, s)) (kept-append xs ys)
kept-append (publish t s q false ∷ xs) ys = kept-append xs ys
kept-append (subscribe t q ∷ xs) ys = kept-append xs ys
kept-append (mark_valid ∷ xs) ys = kept-append xs ys

acts-kept :
    {Parser : Type 0}
    → (us : ℕ) (d : Device Parser) (es : List Effect) → kept (acts us d es).1 ≡ discoveries es
unfolding acts act kept discoveries mqtt_publish_discovery mqtt_publish_state
acts-kept us d [] = refl
acts-kept us d (Effect.discovery t s ∷ es) = ap (◌∷◌ (t, s)) (acts-kept us d es)
acts-kept us d (Effect.state s ∷ es) = acts-kept us d es
acts-kept us d (Effect.pulse ∷ es) = acts-kept us (act us d Effect.pulse).0 es
acts-kept us d (Effect.next_line ∷ es) = acts-kept us (act us d Effect.next_line).0 es

pub inputs-append :
    (b : Broker) (es fs : List Event) → inputs b (es ++ fs) ≡ inputs b es ++ inputs b fs
unfolding inputs
inputs-append b [] fs = refl
inputs-append b (looped chunk us pulse_us ∷ es) fs =
    ap (◌∷◌ (record { chunk = chunk; now = now_ms us; broker = b })) (inputs-append b es fs)
inputs-append b (mqtt_event p e ∷ es) fs = inputs-append b es fs
inputs-append b (wifi_event e ∷ es) fs = inputs-append b es fs
inputs-append b (download_begins ∷ es) fs = inputs-append b es fs
inputs-append b (download_fails ∷ es) fs = inputs-append b es fs
inputs-append b (led_turn ∷ es) fs = inputs-append b es fs

module _ {Real Parser : Type 0} (real_text : Real → Bytes)
    (parse : Parser → Bytes → Parser × Parsed Real) where
  -- A device whose loop and broker are in these states, and what was published on the way.
  pub record Went (p : Parser) (a : App) (b : Broker) (t : Bytes) (sent : List Bytes)
      (told : List (Bytes × Bytes)) (r : Device Parser × List Request) : Type 0 where
    pub parser : r.0.parser ≡ p
    pub app : r.0.app ≡ a
    pub broker : seen real_text parse r.0 ≡ b
    pub topic : r.0.mqtt.state_top ≡ t
    pub published : passing r.1 ≡ on_topic t sent
    pub announced : kept r.1 ≡ told

  Keeps : Device Parser → Device Parser × List Request → Type 0
  Keeps d r = Went d.parser d.app (seen real_text parse d) d.mqtt.state_top [] [] r

  begins-Keeps : (d : Device Parser) → Keeps d (begins d, [])
  unfolding Keeps begins passing kept
  begins-Keeps d = elim (Bool-cases (d.net.ota.waiting == 0)) [
    | inl e ↦
        rw (e, begins)
          (record {
            parser = refl;
            app = refl;
            broker = refl;
            topic = refl;
            published = refl;
            announced = refl;
          })
    | inr e ↦
        rw (e, begins)
          (record {
            parser = refl;
            app = refl;
            broker = refl;
            topic = refl;
            published = refl;
            announced = refl;
          })
  ]

  fails-Keeps : (d : Device Parser) → Keeps d (fails d, [])
  unfolding Keeps fails passing kept
  fails-Keeps d = elim (Bool-cases (d.net.ota.running == 0)) [
    | inl e ↦
        rw (e, fails)
          (record {
            parser = refl;
            app = refl;
            broker = refl;
            topic = refl;
            published = refl;
            announced = refl;
          })
    | inr e ↦
        rw (e, fails)
          (record {
            parser = refl;
            app = refl;
            broker = refl;
            topic = refl;
            published = refl;
            announced = refl;
          })
  ]

  looped-Went :
      (d : Device Parser) (chunk : Bytes) (us pulse_us : ℕ)
      → let r = pass real_text parse d.parser d.app chunk (now_ms us) (seen real_text parse d) in
        Went r.0 r.1
          (seen real_text parse d)
          d.mqtt.state_top
          (states r.2)
          (discoveries r.2)
          (loop_turn real_text parse d chunk us pulse_us)
  unfolding loop_turn
  looped-Went d chunk us pulse_us =
      let r = pass real_text parse d.parser d.app chunk (now_ms us) (seen real_text parse d) in
      let next : Device Parser = record d { parser = r.0; app = r.1 } in
      let spares = (acts-Spares pulse_us next r.2).0 in
      record {
        parser = spares.parser;
        app = spares.app;
        broker = λ i. record {
          connected = (spares.net i).connected;
          session = (spares.net i).session;
          mac = spares.mac i;
        };
        topic = ap (λ m. m.state_top) spares.mqtt;
        published = acts-passing pulse_us next r.2;
        announced = acts-kept pulse_us next r.2;
      }

  -- The loop's passes among the events, and what they publish.
  abbrev pub Passed : Device Parser → List Event → Device Parser × List Request → Type 0
  Passed d es out =
      let r = passes real_text parse d.parser d.app (inputs (seen real_text parse d) es) in
      Went r.0 r.1 (seen real_text parse d) d.mqtt.state_top (states r.2) (discoveries r.2) out

  -- An event, with what it made of the loop's variables and what it published, before events that
  -- are accounted for.
  follow :
      {p : Parser} {a : App} {b : Broker} {t : Bytes} {first : List Bytes}
      {told : List (Bytes × Bytes)} (d' : Device Parser) (sent : List Request) (es : List Event)
      → Went p a b t first told (d', sent)
      → Passed d' es (device_run real_text parse d' es)
      → let r = passes real_text parse p a (inputs b es) in
        Went r.0 r.1 b t
          (first ++ states r.2)
          (told ++ discoveries r.2)
          ((device_run real_text parse d' es).0, sent ++ (device_run real_text parse d' es).1)
  follow {p} {a} {b} {t} {first} {told} d' sent es one later =
      let out = device_run real_text parse d' es in
      let same : passes real_text parse d'.parser d'.app (inputs (seen real_text parse d') es)
          ≡ passes real_text parse p a (inputs b es) =
        λ i. passes real_text parse (one.parser i) (one.app i) (inputs (one.broker i) es) in
      let r = passes real_text parse p a (inputs b es) in
      record {
        parser = later.parser ∙ ap (λ r. r.0) same;
        app = later.app ∙ ap (λ r. r.1) same;
        broker = later.broker ∙ one.broker;
        topic = later.topic ∙ one.topic;
        published =
            passing-append sent out.1
            ∙ ap (λ xs. xs ++ passing out.1) one.published
            ∙ ap (λ xs. on_topic t first ++ xs)
                (later.published ∙ (λ i. on_topic (one.topic i) (states (same i).2)))
            ∙ sym (on_topic-append t first (states r.2));
        announced =
            kept-append sent out.1
            ∙ ap (λ xs. xs ++ kept out.1) one.announced
            ∙ ap (λ xs. told ++ xs) (later.announced ∙ (λ i. discoveries (same i).2));
      }

  pub device_run-Passed :
      (d : Device Parser) (es : List Event)
      → All IsSteady es
      → Passed d es (device_run real_text parse d es)
  unfolding device_run device_step on_mqtt on_wifi passes inputs IsSteady states discoveries passing
      kept Keeps tick
  device_run-Passed d [] h = record {
    parser = refl;
    app = refl;
    broker = refl;
    topic = refl;
    published = refl;
    announced = refl;
  }
  device_run-Passed d (looped chunk us pulse_us ∷ es) h =
      let b = seen real_text parse d in
      let r = pass real_text parse d.parser d.app chunk (now_ms us) b in
      let one = loop_turn real_text parse d chunk us pulse_us in
      let went = looped-Went d chunk us pulse_us in
      let later = (passes real_text parse r.0 r.1 (inputs b es)).2 in
      rw (states-append r.2 later, discoveries-append r.2 later)
        (follow one.0 one.1 es went (device_run-Passed one.0 es h.1))
  device_run-Passed d (mqtt_event p mqtt_connected ∷ es) h = cc (h.0)
  device_run-Passed d (mqtt_event p mqtt_disconnected ∷ es) h = cc (h.0)
  device_run-Passed d (mqtt_event p (mqtt_data topic payload) ∷ es) h =
      let n = on_data d.mqtt.status_top d.mqtt.ota_top p d.net topic payload in
      let d' : Device Parser = record d { net = n } in
      let up = on_data-connected d.mqtt.status_top d.mqtt.ota_top p d.net topic payload in
      let session = on_data-session d.mqtt.status_top d.mqtt.ota_top p d.net topic payload in
      follow {first = []} {told = []} d' [] es
        (record {
          parser = refl;
          app = refl;
          broker = λ i. record { connected = up i; session = session i; mac = d.mac };
          topic = refl;
          published = refl;
          announced = refl;
        })
        (device_run-Passed d' es h.1)
  device_run-Passed d (mqtt_event p mqtt_error ∷ es) h = device_run-Passed d es h.1
  device_run-Passed d (mqtt_event p mqtt_other ∷ es) h = device_run-Passed d es h.1
  device_run-Passed d (wifi_event sta_start ∷ es) h = device_run-Passed d es h.1
  device_run-Passed d (wifi_event sta_disconnected ∷ es) h = cc (h.0)
  device_run-Passed d (wifi_event got_ip ∷ es) h = device_run-Passed d es h.1
  device_run-Passed d (wifi_event wifi_other ∷ es) h = device_run-Passed d es h.1
  device_run-Passed d (download_begins ∷ es) h =
      follow (begins d) [] es (begins-Keeps d) (device_run-Passed (begins d) es h.1)
  device_run-Passed d (download_fails ∷ es) h =
      follow (fails d) [] es (fails-Keeps d) (device_run-Passed (fails d) es h.1)
  device_run-Passed d (led_turn ∷ es) h =
      let d' : Device Parser = record d { led = tick d.led } in
      follow {first = []} {told = []} d' [] es
        (record {
          parser = refl;
          app = refl;
          broker = refl;
          topic = refl;
          published = refl;
          announced = refl;
        })
        (device_run-Passed d' es h.1)
