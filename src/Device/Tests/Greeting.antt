-- ===== src/Device/Tests/Greeting.antt =====
-- The first telegram of a session that opens behind a loss of the network.
use gplug_mini.Base.{
  ℕ, ◌+◌, ◌^◌, ◌≤◌, ◌<◌, ◌≡◌, refl, arith, List, [], ◌∷◌, ◌++◌, decimal, All, length, drop, c_str,
  str_eq, some, Bytes,
}
use gplug_mini.Aggregator.{cycle_gap_ms, sub32}
use gplug_mini.Framing.{leading_flags, is_format}
use gplug_mini.Obis.{obis_lookup, lookup_in, table}
use gplug_mini.App.{max_cycle, discovery_codes}
use gplug_mini.App.Publish.{Entities}
use gplug_mini.App.Loop.{Run}
use gplug_mini.App.Collect.{Gathers, all_in, brought, bytes_of, last_time}
use gplug_mini.App.Serial.{learned, first_some, entry_text}
use gplug_mini.Net.{on_mqtt, on_connected}
use gplug_mini.Net.Setup.{mac_str}
use gplug_mini.Net.Wifi.{sta_disconnected, on_wifi}
use gplug_mini.Config.{blank}
use gplug_mini.Device.{Device, Event, looped, wifi_event, now_ms, seen, device_run, device_step}
use gplug_mini.Device.Invariant.{IsEvent}
use gplug_mini.Device.Announce.{connections}
use gplug_mini.Device.Passed.{inputs, kept, passing}
use gplug_mini.Device.Greets.{greeted, greeted-Entities}
use gplug_mini.Device.Tests.Meter.{
  replies, station, meter_parse, both, both-IsPlausible, telling, telling-IsSteady,
}
use gplug_mini.Device.Subscriber.{Shows, booted_subscriber}
use gplug_mini.Json.{Json, read_json, is_plain}
use gplug_mini.Json.Reads.{IsPlain}
use gplug_mini.Json.Integer.{decimal-number}
use gplug_mini.CycleSet.Message.{keep, has}
use gplug_mini.App.Values.{readings, reading}
use gplug_mini.App.Cycle.{registers}
use gplug_mini.Net.{Request}
use gplug_mini.Discovery.{state_topic_text}

abbrev offline : List Event
offline = wifi_event sta_disconnected ∷ []

abbrev joined : Device ℕ
joined = greeted decimal meter_parse blank station 0 75 900000 offline replies

offline-IsEvent : All IsEvent offline × (connections offline + 1 < 2 ^ 32)
unfolding IsEvent connections
offline-IsEvent = ((tt, tt), omega arith)

joined_empty : joined.app.cycle ≡ []
unfolding device_run device_step on_mqtt on_connected on_wifi
joined_empty = refl

telling-Gathers : Gathers joined.app.last_byte 0 (inputs (seen decimal meter_parse joined) telling)
unfolding inputs
telling-Gathers = brought (omega arith) all_in

telling-Run :
    let is = inputs (seen decimal meter_parse joined) telling in
    (0 < length (bytes_of is))
    × (length (bytes_of is) ≤ max_cycle)
    × (cycle_gap_ms ≤ sub32 (now_ms 3300000) (last_time joined.app.last_byte is))
    × Run decimal meter_parse joined.parser
        (drop (leading_flags (bytes_of is)) (bytes_of is))
        1
        both
        2
unfolding inputs leading_flags is_format now_ms last_time device_run device_step on_mqtt
    on_connected on_wifi
telling-Run = (omega arith, omega arith, omega arith, Run.more refl (omega arith) Run.ended)

serial_told : 0 < length (learned decimal joined.app.serial both)
unfolding first_some entry_text c_str obis_lookup lookup_in table str_eq device_run device_step
    on_mqtt on_connected on_wifi
serial_told = omega arith

some_registers : 0 < length (registers decimal both)
unfolding c_str obis_lookup lookup_in table str_eq readings reading keep has
some_registers = omega arith

serial-IsPlain : IsPlain (learned decimal joined.app.serial both)
unfolding is_plain first_some entry_text c_str obis_lookup lookup_in table str_eq device_run
    device_step on_mqtt on_connected on_wifi
serial-IsPlain = (refl, (refl, (refl, (refl, tt))))

greeted-Entities_example :
    Entities
      (learned decimal joined.app.serial both)
      (mac_str station)
      discovery_codes
      (kept (device_run decimal meter_parse joined (telling ++ looped [] 3300000 3300000 ∷ [])).1)
greeted-Entities_example =
    greeted-Entities decimal meter_parse blank station 0 75 900000 offline telling replies 3300000
      3300000 offline-IsEvent.0 offline-IsEvent.1 telling-IsSteady joined_empty telling-Gathers
      telling-Run.0 telling-Run.1 telling-Run.2 serial_told telling-Run.3

abbrev published : List Request
published = (device_run decimal meter_parse joined (telling ++ looped [] 3300000 3300000 ∷ [])).1

booted_subscriber_example :
    (payload : Bytes) × (v : Json) × (passing published
      ≡ (state_topic_text (mac_str station), payload) ∷ [])
    × (read_json payload ≡ some v)
    × Shows
        (learned decimal joined.app.serial both)
        (mac_str station)
        (state_topic_text (mac_str station))
        v
        (readings decimal both)
        discovery_codes
        (kept published)
booted_subscriber_example =
    booted_subscriber decimal decimal-number meter_parse blank station 0 75 900000 offline telling
      replies 3300000 3300000 offline-IsEvent.0 offline-IsEvent.1 telling-IsSteady joined_empty
      telling-Gathers telling-Run.0 telling-Run.1 telling-Run.2 serial_told serial-IsPlain
      telling-Run.3 both-IsPlausible some_registers
