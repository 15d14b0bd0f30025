-- ===== src/Source/Lines.antt =====
-- main/meter_uart.cpp: the candidates over several calls.
use gplug_mini.Base.{ℕ, zero, suc, ◌+◌, ◌-◌, ◌%◌, ◌<◌, ◌≡◌, arith, length}
use gplug_mini.Source.{candidates, try_next_line}

-- The candidate after a number of calls.
unfoldable pub after_tries : ℕ → ℕ → ℕ
after_tries zero candidate = candidate
after_tries (suc n) candidate = try_next_line (after_tries n candidate)

after_tries-mod : (n c : ℕ) → c < 4 → after_tries n c ≡ (c + n) % 4
unfolding after_tries try_next_line
after_tries-mod zero c h = omega arith
after_tries-mod (suc n) c h = omega (arith, after_tries-mod n c h)

-- From any candidate, each candidate is reached within four calls.
pub after_tries-reach :
    (from to : ℕ)
    → from < length candidates
    → to < length candidates
    → (n : ℕ) × (n < 4) × (after_tries n from ≡ to)
after_tries-reach from to h k = (
  (to + 4 - from) % 4,
  omega arith,
  omega (arith, after_tries-mod ((to + 4 - from) % 4) from (omega arith)),
)
