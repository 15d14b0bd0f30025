-- ===== src/Aggregator/Boundary.antt =====
-- The boundary of a cycle, over times that wrap.
use gplug_mini.Base.{ℕ, ◌+◌, ◌%◌, ◌^◌, ◌≤◌, ◌<◌, ◌≡◌, ◌↔◌, true, arith}
use gplug_mini.Aggregator.{cycle_ended, cycle_gap_ms}

-- With a silence of `d` milliseconds, less than 2^32, behind the last byte at time `t`, a cycle has
-- ended exactly if there is a byte in the buffer and `d` is at least 2000; also where the clock
-- has wrapped in between.
pub cycle_ended_iff :
    (t d n : ℕ)
    → d < 2 ^ 32
    → (cycle_ended ((t + d) % 2 ^ 32) (t % 2 ^ 32) n ≡ true) ↔ ((0 < n) × (cycle_gap_ms ≤ d))
unfolding cycle_ended
cycle_ended_iff t d n h = ground arith
