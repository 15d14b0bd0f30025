-- ===== src/Net/Wifi.antt =====
-- main/net.cpp, the handler of WiFi's events. The delay before a new attempt is not modelled.
use gplug_mini.Base.{ℕ, suc, ◌≡◌, refl, ap, Bool, true, false, if◌then◌else◌, List, [], ◌∷◌, ◌++◌}
use gplug_mini.Net.{Net}

pub data WifiEvent : Type 0 where
  sta_start sta_disconnected got_ip wifi_other : WifiEvent

-- What the handler asks for: an attempt to join, and the signal that there is an address.
pub data WifiRequest : Type 0 where
  wifi_connect got_address : WifiRequest

unfoldable pub on_wifi : Net → WifiEvent → Net × List WifiRequest
on_wifi n sta_start = (n, wifi_connect ∷ [])
on_wifi n sta_disconnected = (record n { connected = false }, wifi_connect ∷ [])
on_wifi n got_ip = (n, got_address ∷ [])
on_wifi n wifi_other = (n, [])

unfoldable pub on_wifi_events : Net → List WifiEvent → Net × List WifiRequest
on_wifi_events n [] = (n, [])
on_wifi_events n (e ∷ es) =
    let (n', done) = on_wifi n e in let (n'', later) = on_wifi_events n' es in (n'', done ++ later)

-- The attempts among the requests.
unfoldable pub attempts : List WifiRequest → ℕ
attempts [] = 0
attempts (wifi_connect ∷ rs) = suc (attempts rs)
attempts (got_address ∷ rs) = attempts rs

-- The starts and the losses among the events.
unfoldable pub losses : List WifiEvent → ℕ
losses [] = 0
losses (sta_start ∷ es) = suc (losses es)
losses (sta_disconnected ∷ es) = suc (losses es)
losses (got_ip ∷ es) = losses es
losses (wifi_other ∷ es) = losses es

-- In any sequence of events there are as many attempts to join as there are starts of the station
-- and losses of the network, however many these are.
pub attempts-on_wifi_events :
    (n : Net) (es : List WifiEvent) → attempts (on_wifi_events n es).1 ≡ losses es
unfolding on_wifi_events on_wifi attempts losses
attempts-on_wifi_events n [] = refl
attempts-on_wifi_events n (sta_start ∷ es) = ap suc (attempts-on_wifi_events n es)
attempts-on_wifi_events n (sta_disconnected ∷ es) =
    ap suc (attempts-on_wifi_events (record n { connected = false }) es)
attempts-on_wifi_events n (got_ip ∷ es) = attempts-on_wifi_events n es
attempts-on_wifi_events n (wifi_other ∷ es) = attempts-on_wifi_events n es

-- Whether the bit that `wifi_start_and_wait` waits for is set by a request of the handler.
unfoldable pub signals : List WifiRequest → Bool
signals [] = false
signals (got_address ∷ rs) = true
signals (wifi_connect ∷ rs) = signals rs

-- The wait at the end of `wifi_start_and_wait`, over the events that come: what the handlers ask for
-- until the bit is set, and whether it is.
unfoldable pub wifi_wait : Net → List WifiEvent → List WifiRequest × Bool
wifi_wait n [] = ([], false)
wifi_wait n (e ∷ es) =
    let (n', done) = on_wifi n e in
    let (later, over) = wifi_wait n' es in
    if signals done then (done, true) else (done ++ later, over)

-- Whether an address comes, and the events up to it.
unfoldable pub has_address : List WifiEvent → Bool
has_address [] = false
has_address (got_ip ∷ es) = true
has_address (_ ∷ es) = has_address es

unfoldable pub until_address : List WifiEvent → List WifiEvent
until_address [] = []
until_address (got_ip ∷ es) = got_ip ∷ []
until_address (e ∷ es) = e ∷ until_address es

-- The wait ends exactly with the first address, and until then there are as many attempts to join as
-- starts of the station and losses of the network.
pub wifi_wait-attempts :
    (n : Net) (es : List WifiEvent)
    → ((wifi_wait n es).1 ≡ has_address es)
      × (attempts (wifi_wait n es).0 ≡ losses (until_address es))
unfolding wifi_wait on_wifi signals has_address until_address attempts losses
wifi_wait-attempts n [] = (refl, refl)
wifi_wait-attempts n (sta_start ∷ es) =
    let later = wifi_wait-attempts n es in (later.0, ap suc later.1)
wifi_wait-attempts n (sta_disconnected ∷ es) =
    let later = wifi_wait-attempts (record n { connected = false }) es in (later.0, ap suc later.1)
wifi_wait-attempts n (got_ip ∷ es) = (refl, refl)
wifi_wait-attempts n (wifi_other ∷ es) = wifi_wait-attempts n es
