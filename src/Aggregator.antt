-- ===== src/Aggregator.antt =====
-- main/aggregator.h: when a cycle has ended. Times are `uint32_t` milliseconds, and wrap.
pub mod Boundary
use gplug_mini.Base.{ℕ, ◌+◌, ◌-◌, ◌%◌, ◌^◌, Bool, ◌&&◌, ltb, leb}

abbrev pub cycle_gap_ms : ℕ
cycle_gap_ms = 2000

-- `a - b` in `uint32_t`.
abbrev pub sub32 : ℕ → ℕ → ℕ
sub32 a b = (a + 2 ^ 32 - b) % 2 ^ 32

unfoldable pub cycle_ended : ℕ → ℕ → ℕ → Bool
cycle_ended now_ms last_byte_ms buffered =
    ltb 0 buffered && leb cycle_gap_ms (sub32 now_ms last_byte_ms)
