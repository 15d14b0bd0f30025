-- ===== src/App/Tests/Bench.antt =====
-- The simulated source, with a capture of two chunks.
use gplug_mini.Base.{
  ℕ, ◌+◌, refl, arith, List, [], ◌∷◌, ◌++◌, Bytes, decimal, decimal-pos, replicate, drop, All,
}
use gplug_mini.Framing.{leading_flags, is_format}
use gplug_mini.App.{Capture, App, Parsed}
use gplug_mini.App.Loop.{Run}
use gplug_mini.App.Room.{IsPlausible}
use gplug_mini.App.Simulated.{sim_inputs, sim_start, last_of, Replayed, sim_inputs-Replayed}
use gplug_mini.App.Tests.{power_of, started, online}

-- 300 bytes, and a parser that takes a value from the third of what it is given, and all of it.
abbrev recorded : Bytes
recorded = 0x7E ∷ 0xA0 ∷ 230 ∷ replicate 297 0

abbrev whole_parse : ℕ → Bytes → ℕ × Parsed ℕ
whole_parse p (f ∷ c ∷ w ∷ rest) =
    (p + 1, record { captures = power_of w ∷ []; count = 1; consumed = 300 })
whole_parse p _ = (p, record { captures = []; count = 0; consumed = 0 })

abbrev idle : App
idle = record started { cycle = [] }

abbrev one_value : List (Capture ℕ)
one_value = power_of 230 ∷ []

one_value-IsPlausible : All (IsPlausible decimal) one_value
unfolding decimal
one_value-IsPlausible = (record { bytes = (omega arith, tt); size = omega arith }, tt)

recorded-Run : Run decimal whole_parse 0 (drop (leading_flags recorded) recorded) 1 one_value 1
unfolding leading_flags is_format
recorded-Run = Run.more refl (omega arith) Run.ended

sim_inputs-Replayed_example :
    Replayed decimal decimal-pos whole_parse 1 one_value 0 idle
      (sim_inputs recorded online sim_start (100 ∷ 300 ∷ [] ++ 10300 ∷ []))
unfolding last_of
sim_inputs-Replayed_example =
    sim_inputs-Replayed decimal decimal-pos whole_parse 0 idle recorded online (100 ∷ 300 ∷ [])
      10300 refl (omega arith) (omega arith) (omega arith) (omega arith) refl (omega arith)
      (omega arith) (omega arith) recorded-Run one_value-IsPlausible
