-- ===== src/App.antt =====
-- main/app_main.cpp: decoded values, publishing, and the main loop. The DLMS parser is a library: it
-- is the argument `parse`, a function of the parser's own state and the bytes that it is given. Times
-- and the environment of a pass (the bytes that arrived, the broker's state) are arguments too.
pub mod Values
pub mod Publish
pub mod Looks
pub mod Loop
pub mod Cycle
pub mod Passes
pub mod Line
pub mod Collect
pub mod Serial
pub mod Room
pub mod Reads
pub mod Simulated
pub mod Heard
pub mod Announces
pub mod Telegram
pub mod Budget
pub mod Dump
pub mod Pulses
pub mod Tests
use gplug_mini.Base.{
  ℕ, zero, suc, ◌+◌, ◌-◌, ◌*◌, ◌/◌, ◌%◌, ◌^◌, Bool, true, false, not, ◌&&◌, ◌||◌, List, [], ◌∷◌,
  ◌++◌, Option, none, some, Bytes, codes, leb, ltb, ◌==◌, if◌then◌else◌, length, take, drop, c_str,
  min,
}
use gplug_mini.Aggregator.{cycle_ended}
use gplug_mini.CycleSet.{CycleSet, clear, add_integer, add_real, is_empty, json_text}
use gplug_mini.Discovery.{discovery_topic, discovery_payload}
use gplug_mini.Framing.{leading_flags, is_format}
use gplug_mini.Obis.{ObisEntry, Kind, cumulative, obis_lookup, is_identity}

abbrev pub max_cycle : ℕ
max_cycle = 2048

-- `AxdrCapture`, as its accessors show it: the code's text, whether the value is a number, its
-- bytes, `value_as_string` and `value_as_float_with_scaler_applied`.
pub record Capture (Real : Type 0) : Type 0 where
  pub obis : Bytes
  pub numeric : Bool
  pub value : Bytes
  pub text : Bytes
  pub real : Real
  pub scaler : ℕ

-- The file's variables, and those of `app_main`'s loop.
pub record App : Type 0 where
  pub cycle : Bytes
  pub last_byte : ℕ
  pub set : CycleSet
  pub serial : Bytes
  pub discovery_session : ℕ
  pub undecoded : ℕ
  pub values : ℕ

-- What a pass does to the outside.
pub data Effect : Type 0 where
  discovery : Bytes → Bytes → Effect
  state : Bytes → Effect
  pulse : Effect
  next_line : Effect

-- What the rest of the device says: `mqtt_connected()`, `mqtt_session()` and `wifi_mac()`.
pub record Broker : Type 0 where
  pub connected : Bool
  pub session : ℕ
  pub mac : Bytes

-- `raw = (raw << 8) | b` in `uint64_t`: the low byte is free after the shift.
unfoldable pub raw_from : ℕ → Bytes → ℕ
raw_from raw [] = raw
raw_from raw (b ∷ s) = raw_from ((raw * 256) % 2 ^ 64 + b) s

abbrev pub is_cumulative : Kind → Bool
is_cumulative cumulative = true
is_cumulative _ = false

abbrev pub is_nil : Bytes → Bool
is_nil s = length s == 0

module _ {Real : Type 0} (real_text : Real → Bytes) where
  unfoldable pub on_text : App → ObisEntry → Bytes → App
  on_text a e text =
      if is_identity e.kind && (is_nil a.serial && not (is_nil text))
      then record a { serial = c_str (take 31 text) }
      else a

  unfoldable pub on_number : App → ObisEntry → Capture Real → App
  on_number a e c =
      if is_cumulative e.kind
      then record a { set = (add_integer a.set e.label (raw_from 0 c.value)).0 }
      else record a { set = (add_real real_text a.set e.label c.real).0 }

  unfoldable pub on_entry : App → Option ObisEntry → Capture Real → App
  on_entry a none c = a
  on_entry a (some e) c = if c.numeric then on_number a e c else on_text a e c.text

  unfoldable pub on_value : App → Capture Real → App
  on_value a c =
      on_entry (record a { values = a.values + 1 }) (obis_lookup (c_str (take 39 c.obis))) c

  unfoldable pub on_values : App → List (Capture Real) → App
  on_values a [] = a
  on_values a (c ∷ cs) = on_values (on_value a c) cs

abbrev pub discovery_codes : List Bytes
discovery_codes =
    codes "1.1.1.8.0.255"
    ∷ codes "1.1.2.8.0.255"
    ∷ codes "1.1.5.8.0.255"
    ∷ codes "1.1.6.8.0.255"
    ∷ codes "1.1.7.8.0.255"
    ∷ codes "1.1.8.8.0.255"
    ∷ codes "1.0.1.7.0.255"
    ∷ codes "1.0.2.7.0.255"
    ∷ []

-- One turn of the discovery loop.
unfoldable pub announce : Bytes → Bytes → Option ObisEntry → List Effect
announce serial mac none = []
announce serial mac (some e) =
    let (topic, topic_len) = discovery_topic 128 serial e.label in
    let (payload, payload_len) = discovery_payload 768 e serial mac in
    if topic_len == 0 then [] else if payload_len == 0 then [] else discovery topic payload ∷ []

unfoldable pub announce_all : Bytes → Bytes → List Bytes → List Effect
announce_all serial mac [] = []
announce_all serial mac (code ∷ rest) =
    announce serial mac (obis_lookup code) ++ announce_all serial mac rest

-- The end of `publish_cycle`: the state message.
unfoldable pub publish_state : App → App × List Effect
publish_state a =
    if is_empty a.set
    then (a, [])
    else (record a { set = (json_text a.set).0 }, state (json_text a.set).1 ∷ pulse ∷ [])

unfoldable pub publish_discovery : App → Broker → App × List Effect
publish_discovery a b =
    if a.discovery_session == b.session
    then (a, [])
    else (record a { discovery_session = b.session }, announce_all a.serial b.mac discovery_codes)

unfoldable pub publish_cycle : App → Broker → App × List Effect
publish_cycle a b =
    let (a1, announced) = publish_discovery a b in
    let (a2, published) = publish_state a1 in
    if not b.connected
    then (a, [])
    else if is_nil a.serial
    then (a, [])
    else (a2, announced ++ published)

-- The scan for `7E A0`: whether a flag with a format byte behind it is anywhere.
unfoldable pub framed : Bytes → Bool
framed [] = false
framed (b ∷ []) = false
framed (b ∷ c ∷ rest) = (b == 0x7E && is_format c) || framed (c ∷ rest)

-- Whether the line settings are doubted, after a cycle of which `objects` objects decoded.
unfoldable pub judge : App → ℕ → App × List Effect
judge a objects =
    if not (objects == 0)
    then (record a { undecoded = 0 }, [])
    else if framed a.cycle
    then (record a { undecoded = 0 }, [])
    else if leb 2 (a.undecoded + 1)
    then (record a { undecoded = 0 }, next_line ∷ [])
    else (record a { undecoded = a.undecoded + 1 }, [])

-- What a call of the parser gives: the values that it reported, and its result.
pub record Parsed (Real : Type 0) : Type 0 where
  pub captures : List (Capture Real)
  pub count : ℕ
  pub consumed : ℕ

module _ {Real Parser : Type 0} (real_text : Real → Bytes)
    (parse : Parser → Bytes → Parser × Parsed Real) where
  -- The loop over the passes of the parser; `rest` is the buffer from `offset` on, so that an offset
  -- past the end leaves nothing. The fuel `length rest` is enough.
  unfoldable pub parse_from : ℕ → Parser → App → ℕ → Bytes → Parser × App × ℕ
  parse_from fuel p a objects [] = (p, a, objects)
  parse_from zero p a objects (b ∷ rest) = (p, a, objects)
  parse_from (suc fuel) p a objects (b ∷ rest) =
      let (p', pass) = parse p (b ∷ rest) in
      let a' = on_values real_text a pass.captures in
      let later = parse_from fuel p' a' (objects + pass.count) (drop pass.consumed (b ∷ rest)) in
      if pass.consumed == 0 then (p', a', objects + pass.count) else later

  -- A cycle that has ended.
  unfoldable pub finish_cycle : Parser → App → Broker → Parser × App × List Effect
  finish_cycle p a b =
      let fresh = record a { values = 0; set = clear } in
      let rest = drop (leading_flags a.cycle) a.cycle in
      let (p', decoded, objects) = parse_from (length rest) p fresh 0 rest in
      let (judged, line) = judge decoded objects in
      let (published, sent) = publish_cycle judged b in
      (p', record published { cycle = [] }, line ++ sent)

  -- One pass of the loop: `chunk` is what `meter_source_read` delivered, `now` the time.
  unfoldable pub pass : Parser → App → Bytes → ℕ → Broker → Parser × App × List Effect
  pass p a chunk now b =
      if ltb 0 (length chunk)
      then (
        p,
        record a {
          cycle = (if ltb max_cycle (length a.cycle + length chunk) then [] else a.cycle) ++ chunk;
          last_byte = now;
        },
        [],
      )
      else if not (cycle_ended now a.last_byte (length a.cycle))
      then (p, a, [])
      else finish_cycle p a b
