-- ===== src/Device/Raced.antt =====
-- The running device behind a `publish_cycle` during which the broker's session changed.
use gplug_mini.Base.{
  ◌<◌, ◌≡◌, ◌≢◌, ◌∙◌, true, List, Bytes, ◌==◌, length, arith, Bool-cases, inl, inr,
}
use gplug_mini.App.{App, Parsed}
use gplug_mini.App.Looks.{Looks, announce_once, publish_looks}
use gplug_mini.App.Publish.{publish_state-sent, nonzero}
use gplug_mini.Device.{Device, Event, device_run}
use gplug_mini.Device.Announce.{retained, connections, device_run-retained}

publish_looks-latched :
    (a : App) (l : Looks)
    → l.connected ≡ true
    → 0 < length a.serial
    → a.discovery_session ≢ l.compared
    → (publish_looks a l).0.discovery_session ≡ l.latched
unfolding publish_looks announce_once
publish_looks-latched a l up known new = elim (Bool-cases (a.discovery_session == l.compared)) [
  | inl same ↦ absurd (new (ground arith))
  | inr other ↦
      let next : App = record a { discovery_session = l.latched } in
      let kept = (publish_state-sent next).2 in
      rw (up, nonzero (length a.serial) known, other, publish_looks, announce_once) kept
]

module _ {Real Parser : Type 0} (real_text : Real → Bytes)
    (parse : Parser → Bytes → Parser × Parsed Real) where
  -- The device with the variables that `publish_cycle` leaves.
  abbrev pub behind : Device Parser → Looks → Device Parser
  behind d l = record d { app = (publish_looks d.app l).0 }

  -- If the broker is connected and the serial known, the session of the comparison is not announced
  -- yet, and the one that the device is in afterwards is that of the assignment, then the entities
  -- count as announced to the latter, whether or not it is the one of the comparison: whatever
  -- happens until a further session opens, nothing more is announced to it.
  pub publish_looks-raced :
      (d : Device Parser) (l : Looks) (es : List Event)
      → l.connected ≡ true
      → 0 < length d.app.serial
      → d.app.discovery_session ≢ l.compared
      → l.latched ≡ d.net.session
      → connections es ≡ 0
      → retained (device_run real_text parse (behind d l) es).1 ≡ 0
  publish_looks-raced d l es up known new last none_open =
      let latched = publish_looks-latched d.app l up known new ∙ last in
      let same : ((publish_looks d.app l).0.discovery_session == d.net.session) ≡ true =
        ground (arith, latched) in
      let few = device_run-retained real_text parse (behind d l) es in
      ground (arith, same, few, none_open)
