-- ===== src/App/Looks.antt =====
-- `publish_cycle` of main/app_main.cpp with each of its looks at the broker on its own: the client's task
-- can run between them.
use gplug_mini.Base.{ℕ, ◌≡◌, refl, Bool, not, List, [], ◌++◌, Bytes, ◌==◌, if◌then◌else◌}
use gplug_mini.App.{
  App, Effect, Broker, is_nil, announce_all, discovery_codes, publish_state, publish_cycle,
  publish_discovery,
}

-- `mqtt_connected()`, and `mqtt_session()` in the comparison and in the assignment behind the loop.
pub record Looks : Type 0 where
  pub connected : Bool
  pub compared : ℕ
  pub latched : ℕ
  pub mac : Bytes

-- Looks between which nothing happens.
abbrev pub still : Broker → Looks
still b = record { connected = b.connected; compared = b.session; latched = b.session; mac = b.mac }

unfoldable pub announce_once : App → Looks → App × List Effect
announce_once a l =
    if a.discovery_session == l.compared
    then (a, [])
    else (record a { discovery_session = l.latched }, announce_all a.serial l.mac discovery_codes)

unfoldable pub publish_looks : App → Looks → App × List Effect
publish_looks a l =
    let (a1, announced) = announce_once a l in
    let (a2, published) = publish_state a1 in
    if not l.connected
    then (a, [])
    else if is_nil a.serial
    then (a, [])
    else (a2, announced ++ published)

pub publish_looks-still : (a : App) (b : Broker) → publish_looks a (still b) ≡ publish_cycle a b
unfolding publish_looks publish_cycle announce_once publish_discovery
publish_looks-still a b = refl
