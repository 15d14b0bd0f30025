-- ===== src/Net/Topics.antt =====
-- main/net.cpp: the device's name on the broker, and its topics.
use gplug_mini.Base.{
  ℕ, ◌+◌, ◌<◌, ◌≡◌, ◌≢◌, refl, ap, arith, true, [], ◌∷◌, ◌++◌, Bytes, codes, length, length-append,
  snprintf, snprintf-fits, take,
}
use gplug_mini.Config.{Config}
use gplug_mini.Discovery.{print_to, state_topic, status_topic, state_topic_text, status_topic_text}
use gplug_mini.Net.{Net, Platform, publish, subscribe, on_connected}
use gplug_mini.Net.Setup.{mac_str, ota_topic_text, topic_room, Mqtt, mqtt_start}

pub length-mac_str : (mac : Bytes) → length (mac_str mac) ≡ 17
unfolding mac_str snprintf
length-mac_str mac = refl

whole : (s : Bytes) → length s < topic_room → (snprintf topic_room s).0 ≡ s
whole s h = ap (λ (r : Bytes × ℕ). r.0) (snprintf-fits topic_room s h)

module _ (conf : Config) (mac : Bytes) where
  abbrev set_up : Mqtt
  set_up = mqtt_start conf (mac_str mac)

  -- What the topics are, that they are three, and what is said on the first of them and asked of
  -- the second as a session begins.
  pub record Topics (p : Platform) (n : Net) : Type 0 where
    pub status_is : set_up.status_top ≡ status_topic_text (mac_str mac)
    pub ota_is : set_up.ota_top ≡ ota_topic_text (mac_str mac)
    pub state_is : set_up.state_top ≡ state_topic_text (mac_str mac)
    pub status_ota : set_up.status_top ≢ set_up.ota_top
    pub status_state : set_up.status_top ≢ set_up.state_top
    pub ota_state : set_up.ota_top ≢ set_up.state_top
    pub told :
        take 2 (on_connected set_up.status_top set_up.ota_top p n).1
        ≡ publish set_up.will_topic (codes "online") set_up.will_qos set_up.will_retain
          ∷ subscribe (ota_topic_text (mac_str mac)) 1
          ∷ []

  named : (tail : Bytes) → length (codes "gplug/" ++ (mac_str mac ++ tail)) ≡ 23 + length tail
  named tail = omega (arith, length-mac_str mac, length-append {0} (mac_str mac) tail)

  apart :
      (s t : Bytes)
      → length s ≢ length t
      → (codes "gplug/" ++ (mac_str mac ++ s)) ≢ (codes "gplug/" ++ (mac_str mac ++ t))
  apart s t h e = absurd (ground (arith, named s, named t, ap length e))

  status-whole : set_up.status_top ≡ status_topic_text (mac_str mac)
  unfolding mqtt_start status_topic print_to
  status-whole = whole (status_topic_text (mac_str mac)) (omega (arith, named (codes "/status")))

  ota-whole : set_up.ota_top ≡ ota_topic_text (mac_str mac)
  unfolding mqtt_start
  ota-whole = whole (ota_topic_text (mac_str mac)) (omega (arith, named (codes "/cmd/ota")))

  pub state-whole : set_up.state_top ≡ state_topic_text (mac_str mac)
  unfolding mqtt_start state_topic print_to
  state-whole = whole (state_topic_text (mac_str mac)) (omega (arith, named (codes "/state")))

  -- The device's three topics are written whole and differ; and as a session begins the device says
  -- that it is there with the topic, the quality of service and the retention with which the broker
  -- would say that it is gone, and subscribes to the topic of commands.
  pub mqtt_start-Topics : (p : Platform) (n : Net) → Topics p n
  unfolding mqtt_start on_connected
  mqtt_start-Topics p n = record {
    status_is = status-whole;
    ota_is = ota-whole;
    state_is = state-whole;
    status_ota =
        rw (status-whole, ota-whole) (apart (codes "/status") (codes "/cmd/ota") (omega arith));
    status_state =
        rw (status-whole, state-whole) (apart (codes "/status") (codes "/state") (omega arith));
    ota_state =
        rw (ota-whole, state-whole) (apart (codes "/cmd/ota") (codes "/state") (omega arith));
    told =
        ap (λ (t : Bytes). publish set_up.status_top (codes "online") 1 true ∷ subscribe t 1 ∷ [])
          ota-whole;
  }
