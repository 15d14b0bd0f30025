-- ===== src/Net/Session.antt =====
-- The count of sessions, and what the device takes as a command.
use gplug_mini.Base.{
  ℕ, suc, ◌+◌, ◌%◌, ◌^◌, ◌<◌, ◌≡◌, ◌≢◌, inl, inr, refl, ◌∙◌, arith, false, not, ◌&&◌, List, [], ◌∷◌,
  Bytes, ◌==◌, length, strncmp_eq, strncmp_eq-IsPrefix, IsPrefixOf, Bool-cases,
}
use gplug_mini.Net.{
  Net, MqttEvent, Platform, mqtt_connected, mqtt_disconnected, mqtt_data, mqtt_error, mqtt_other,
  on_connected, on_data, on_mqtt,
}

-- The sessions that a sequence of events establishes.
unfoldable pub sessions : List (Platform × MqttEvent) → ℕ
sessions [] = 0
sessions ((p, mqtt_connected) ∷ es) = suc (sessions es)
sessions ((p, _) ∷ es) = sessions es

module _ (status_top ota_top : Bytes) where
  unfoldable pub on_events : Net → List (Platform × MqttEvent) → Net
  on_events n [] = n
  on_events n ((p, e) ∷ es) = on_events (on_mqtt status_top ota_top p n e).0 es

  pub on_data-session :
      (p : Platform) (n : Net) (topic payload : Bytes)
      → (on_data status_top ota_top p n topic payload).session ≡ n.session
  unfolding on_data
  on_data-session p n topic payload =
      elim (Bool-cases (not (length topic == 0) && strncmp_eq (length topic) topic ota_top)) [
        | inl e ↦ rw (e, on_data) refl
        | inr e ↦ rw (e, on_data) refl
      ]

  -- The session's number counts the sessions established since the start, modulo `2 ^ 32`.
  pub on_events-sessions :
      (n : Net) (es : List (Platform × MqttEvent))
      → n.session < 2 ^ 32
      → (on_events n es).session ≡ (n.session + sessions es) % 2 ^ 32
  unfolding on_events on_mqtt on_connected sessions
  on_events-sessions n [] h = omega (arith, h)
  on_events-sessions n ((p, mqtt_connected) ∷ es) h =
      on_events-sessions (on_connected status_top ota_top p n).0 es (omega arith) ∙ omega arith
  on_events-sessions n ((p, mqtt_disconnected) ∷ es) h =
      on_events-sessions (record n { connected = false }) es h
  on_events-sessions n ((p, mqtt_data topic payload) ∷ es) h =
      let same = on_data-session p n topic payload in
      on_events-sessions (on_data status_top ota_top p n topic payload) es (rw same h)
      ∙ rw same refl
  on_events-sessions n ((p, mqtt_error) ∷ es) h = on_events-sessions n es h
  on_events-sessions n ((p, mqtt_other) ∷ es) h = on_events-sessions n es h

  -- An event that changes anything of the update's state is a message whose topic is the command
  -- topic or a part of it from its start.
  pub on_mqtt-ota :
      (p : Platform) (n : Net) (e : MqttEvent)
      → (on_mqtt status_top ota_top p n e).0.ota ≢ n.ota
      → (topic : Bytes) × (payload : Bytes) × (e ≡ mqtt_data topic payload)
        × IsPrefixOf topic ota_top
  unfolding on_mqtt on_connected
  on_mqtt-ota p n mqtt_connected h = absurd (h refl)
  on_mqtt-ota p n mqtt_disconnected h = absurd (h refl)
  on_mqtt-ota p n (mqtt_data topic payload) h =
      elim (Bool-cases (not (length topic == 0) && strncmp_eq (length topic) topic ota_top)) [
        | inr e ↦ absurd (h (unfold on_data in rw (e, on_data) refl))
        | inl e ↦ (topic, payload, refl, (strncmp_eq-IsPrefix topic ota_top).0 (ground arith))
      ]
  on_mqtt-ota p n mqtt_error h = absurd (h refl)
  on_mqtt-ota p n mqtt_other h = absurd (h refl)
