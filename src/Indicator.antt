-- ===== src/Indicator.antt =====
-- main/indicator.h and main/indicator.cpp: the patterns of the LED, and the task that shows them. A
-- light is what the last call of `set` gave the three pins. Times of the pulse are microseconds.
pub mod Distinct
pub mod Render
pub mod Boot
mod Tests
use gplug_mini.Base.{
  ℕ, ◌+◌, ◌*◌, ◌/◌, ◌%◌, ◌^◌, Bool, true, false, not, ◌&&◌, ◌||◌, Bytes, codes, ltb, ◌==◌,
  if◌then◌else◌,
}

pub data Indication : Type 0 where
  boot provisioning connecting linked operational updating : Indication

pub record Light : Type 0 where
  pub red : Bool
  pub green : Bool
  pub blue : Bool

abbrev pub dark : Light
dark = record { red = false; green = false; blue = false }

abbrev pub red_light : Light
red_light = record { red = true; green = false; blue = false }

abbrev pub green_light : Light
green_light = record { red = false; green = true; blue = false }

abbrev pub blue_light : Light
blue_light = record { red = false; green = false; blue = true }

pub record Pattern : Type 0 where
  pub a : Light
  pub b : Light
  pub period_ms : ℕ

unfoldable pub pattern_for : Indication → Pattern
pattern_for boot = record { a = red_light; b = blue_light; period_ms = 1500 }
pattern_for provisioning = record { a = blue_light; b = blue_light; period_ms = 0 }
pattern_for connecting = record { a = red_light; b = dark; period_ms = 5000 }
pattern_for linked = record { a = red_light; b = dark; period_ms = 1000 }
pattern_for operational = record { a = dark; b = dark; period_ms = 0 }
pattern_for updating = record { a = blue_light; b = green_light; period_ms = 200 }

abbrev pub publish_pulse_ms : ℕ
publish_pulse_ms = 100

abbrev pub bool_eq : Bool → Bool → Bool
bool_eq true b = b
bool_eq false b = not b

abbrev pub light_eq : Light → Light → Bool
light_eq x y = bool_eq x.red y.red && bool_eq x.green y.green && bool_eq x.blue y.blue

-- `a == b` of two indications.
unfoldable pub same : Indication → Indication → Bool
same boot boot = true
same provisioning provisioning = true
same connecting connecting = true
same linked linked = true
same operational operational = true
same updating updating = true
same _ _ = false

unfoldable pub distinguishable : Indication → Indication → Bool
distinguishable i j =
    let x = pattern_for i in
    let y = pattern_for j in
    if same i j
    then true
    else not (light_eq x.a y.a) || not (light_eq x.b y.b) || not (x.period_ms == y.period_ms)

unfoldable pub name_of : Indication → Bytes
name_of boot = codes "boot"
name_of provisioning = codes "provisioning"
name_of connecting = codes "connecting"
name_of linked = codes "linked"
name_of operational = codes "operational"
name_of updating = codes "updating"

abbrev pub tick_ms : ℕ
tick_ms = 25

-- The variables of the indicator: `current`, `pulse_until_us`, and the task's `elapsed`.
pub record Led : Type 0 where
  pub current : Indication
  pub pulse_until_us : ℕ
  pub elapsed : ℕ

unfoldable pub indicate : Led → Indication → Led
indicate l i = record l { current = i }

unfoldable pub indicate_publish : Led → ℕ → Led
indicate_publish l now_us = record l { pulse_until_us = now_us + publish_pulse_ms * 1000 }

-- What one turn of the task shows at the time `now_us`.
unfoldable pub shown : Led → ℕ → Light
shown l now_us =
    let p = pattern_for l.current in
    if ltb now_us l.pulse_until_us
    then green_light
    else if p.period_ms == 0
    then p.a
    else if ltb (l.elapsed % p.period_ms) (p.period_ms / 2)
    then p.a
    else p.b

-- `elapsed += TICK_MS` in `uint32_t`.
unfoldable pub tick : Led → Led
tick l = record l { elapsed = (l.elapsed + tick_ms) % 2 ^ 32 }
