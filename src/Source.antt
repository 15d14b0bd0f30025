-- ===== src/Source.antt =====
-- The two sources of the meter's bytes: main/meter_uart.cpp, with its candidates for the line's
-- settings, and main/sim_source.cpp, which replays a capture. The UART driver is not modelled.
pub mod Lines
pub mod Uart
pub mod Replay
mod Tests
use gplug_mini.Base.{
  ℕ, zero, suc, ◌+◌, ◌-◌, ◌*◌, ◌%◌, Bool, true, false, List, [], ◌∷◌, ◌++◌, Option, none, some,
  Bytes, leb, ltb, ◌==◌, in_range, if◌then◌else◌, length, take, drop, get_elem?, min,
}

pub data Parity : Type 0 where
  even no_parity : Parity

pub record LineConfig : Type 0 where
  pub parity : Parity
  pub invert : Bool

abbrev pub candidates : List LineConfig
candidates =
    record { parity = even; invert = true }
    ∷ record { parity = even; invert = false }
    ∷ record { parity = no_parity; invert = true }
    ∷ record { parity = no_parity; invert = false }
    ∷ []

-- `candidate`, as `meter_source_try_next_line` of the UART moves it; the settings that are applied
-- are those at the new place.
unfoldable pub try_next_line : ℕ → ℕ
try_next_line candidate = (candidate + 1) % length candidates

abbrev pub applied : ℕ → Option LineConfig
applied candidate = get_elem? candidates candidate

-- The value of a hexadecimal character; any other is passed over.
unfoldable pub nibble : ℕ → Option ℕ
nibble c =
    if in_range c b'0' b'9'
    then some (c - b'0')
    else if in_range c b'A' b'F'
    then some (c - b'A' + 10)
    else if in_range c b'a' b'f'
    then some (c - b'a' + 10)
    else none

-- The loop of `parse_hex` over the embedded text: `byte` and `nibbles` are its variables.
unfoldable pub parse_hex : ℕ → ℕ → Bytes → Bytes
parse_hex byte nibbles [] = []
parse_hex byte nibbles (c ∷ s) =
    let skip = parse_hex byte nibbles s in
    elim (nibble c) [
      | none ↦ skip
      | some v ↦
          let value = (byte * 16 + v) % 256 in
          let next = parse_hex 0 0 s in
          let more = parse_hex value (nibbles + 1) s in
          if nibbles + 1 == 2 then value ∷ next else more
    ]

-- The variables `pos` and `gap_pending`.
pub record Sim : Type 0 where
  pub pos : ℕ
  pub gap_pending : Bool

-- `meter_source_read` of the simulated source, for at most `size` bytes.
unfoldable pub sim_read : Bytes → ℕ → Sim → Sim × Bytes
sim_read capture size s =
    let n = min size (length capture - s.pos) in
    if length capture == 0
    then (s, [])
    else if s.gap_pending
    then (record { pos = 0; gap_pending = false }, [])
    else (
      record {
        pos = s.pos + n;
        gap_pending = if leb (length capture) (s.pos + n) then true else s.gap_pending;
      },
      take n (drop s.pos capture),
    )
