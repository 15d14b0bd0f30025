-- ===== src/App/Tests.antt =====
-- The main loop with a small parser: a frame is a flag, a format byte and one byte of power.
pub mod Readings
mod Bench
use gplug_mini.Base.{
  ℕ, ◌≡◌, ◌≤◌, ◌<◌, ◌+◌, refl, arith, true, List, [], ◌∷◌, ◌++◌, Bytes, codes, decimal, decimal-pos,
  length, drop, str_eq, if◌then◌else◌, ◌==◌, c_str,
}
use gplug_mini.CycleSet.{clear, max_values, json_size}
use gplug_mini.CycleSet.Message.{keep, has, body, members, member, message}
use gplug_mini.Framing.{leading_flags, is_format}
use gplug_mini.Obis.{obis_lookup, lookup_in, table}
use gplug_mini.App.{
  Capture, App, Broker, Parsed, raw_from, on_values, judge, parse_from, finish_cycle,
}
use gplug_mini.App.Values.{big_endian, reading, readings, raw_from_exact}
use gplug_mini.App.Publish.{Sends, publish_cycle-Sends, discoveries, states}
use gplug_mini.App.Loop.{Run, Gives, parse_from-Run, Run-parse_from}
use gplug_mini.App.Cycle.{registers, Finished, finish_cycle-Finished}
use gplug_mini.App.Passes.{Input, IsBounded, passes, passes-IsBounded, passes_known}
use gplug_mini.App.Pulses.{pulses, passes-pulses}
use gplug_mini.App.Line.{Verdict, judge-Verdict}
use gplug_mini.App.Collect.{
  Gathers, all_in, brought, last_time, bytes_of, Collected, passes-Collected,
}

abbrev pub power_of : ℕ → Capture ℕ
power_of w = record {
  obis = codes "1.0.1.7.0.255";
  numeric = true;
  value = w ∷ [];
  text = [];
  real = w;
  scaler = 0;
}

abbrev pub frame_parse : ℕ → Bytes → ℕ × Parsed ℕ
frame_parse p (f ∷ c ∷ w ∷ rest) =
    if f == 0x7E
    then (p + 1, record { captures = power_of w ∷ []; count = 1; consumed = 3 })
    else (p, record { captures = []; count = 0; consumed = 0 })
frame_parse p _ = (p, record { captures = []; count = 0; consumed = 0 })

abbrev two_frames : Bytes
two_frames = 0x7E ∷ 0xA0 ∷ 230 ∷ 0x7E ∷ 0xA0 ∷ 231 ∷ []

abbrev pub started : App
started = record {
  cycle = 0x7E ∷ two_frames;
  last_byte = 0;
  set = clear;
  serial = codes "LGZ1030655933512";
  discovery_session = 0;
  undecoded = 1;
  values = 0;
}

abbrev pub online : Broker
online = record { connected = true; session = 1; mac = codes "34:85:18:00:11:22" }

abbrev pub two_values : List (Capture ℕ)
two_values = power_of 230 ∷ power_of 231 ∷ []

pub frames-Run : Run decimal frame_parse 0 two_frames 2 two_values 2
frames-Run = Run.more refl (omega arith) (Run.more refl (omega arith) Run.ended)

parse_from-Run_example :
    Gives decimal frame_parse
      (parse_from decimal frame_parse 6 0 started 0 two_frames)
      0
      started
      0
      two_frames
parse_from-Run_example = parse_from-Run decimal frame_parse 6 0 started 0 two_frames (omega arith)

Run-parse_from_example :
    parse_from decimal frame_parse 6 0 started 0 two_frames
    ≡ (2, on_values decimal started two_values, 0 + 2)
Run-parse_from_example = Run-parse_from decimal frame_parse 6 started 0 frames-Run (omega arith)

message_test : message (registers decimal two_values) ≡ codes "{\"active_power_plus\":230}"
unfolding readings reading c_str obis_lookup lookup_in table str_eq keep has members member decimal
message_test = refl

publish_cycle-Sends_example : Sends started online
publish_cycle-Sends_example =
    publish_cycle-Sends started online refl (omega arith) (omega arith) (omega arith)

abbrev arriving : List Input
arriving =
    record { chunk = 0x7E ∷ 0xA0 ∷ []; now = 10; broker = online }
    ∷ record { chunk = 230 ∷ []; now = 30; broker = online }
    ∷ []

abbrev with_silence : List Input
with_silence = record { chunk = []; now = 5000; broker = online } ∷ arriving

passes-pulses_example :
    pulses (passes decimal frame_parse 0 started with_silence).2
    ≡ length (states (passes decimal frame_parse 0 started with_silence).2)
passes-pulses_example = passes-pulses decimal frame_parse 0 started with_silence

judge-Verdict_example : Verdict started 0 (judge started 0).0 (judge started 0).1
judge-Verdict_example = judge-Verdict started 0
