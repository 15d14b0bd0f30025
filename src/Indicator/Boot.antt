-- ===== src/Indicator/Boot.antt =====
-- main/indicator.cpp: the pins, the boot sequence and the start of the task. The task's creation and
-- the driver are not modelled: what they are asked is a list.
use gplug_mini.Base.{
  ℕ, ◌+◌, ◌/◌, ◌%◌, ◌^◌, ◌≡◌, refl, arith, Bool, true, false, List, [], ◌∷◌, All, if◌then◌else◌,
}
use gplug_mini.Indicator.{Light, dark, red_light, green_light, blue_light}

abbrev red_pin : ℕ
red_pin = 1

abbrev blue_pin : ℕ
blue_pin = 3

abbrev green_pin : ℕ
green_pin = 4

abbrev level : Bool → ℕ
level true = 1
level false = 0

-- `set`: the pins, in the order of the calls, with their levels.
unfoldable pub set_levels : Light → List (ℕ × ℕ)
set_levels l = (red_pin, level l.red) ∷ (green_pin, level l.green) ∷ (blue_pin, level l.blue) ∷ []

abbrev pub boot_step_ms : ℕ
boot_step_ms = 500

-- The lights of `boot_sequence`, with the time that each stands.
abbrev pub boot_sequence : List (Light × ℕ)
boot_sequence =
    (red_light, boot_step_ms)
    ∷ (green_light, boot_step_ms)
    ∷ (blue_light, boot_step_ms)
    ∷ (dark, 0)
    ∷ []

-- `cfg.pin_bit_mask`
abbrev pub pin_bit_mask : ℕ
pin_bit_mask = 2 ^ red_pin + 2 ^ blue_pin + 2 ^ green_pin

-- What `indicator_start` asks of the pins, where no task is there yet: a mask of outputs, and levels.
unfoldable pub indicator_start : Bool → List ℕ × List (ℕ × ℕ)
indicator_start running = if running then ([], []) else (pin_bit_mask ∷ [], set_levels dark)

-- Every pin that shows a light is among the outputs.
pub set_levels-outputs :
    (l : Light) → All (λ (p : ℕ × ℕ). (pin_bit_mask / 2 ^ p.0) % 2 ≡ 1) (set_levels l)
unfolding set_levels
set_levels-outputs l = (refl, (refl, (refl, tt)))

-- No two lights are shown by the same levels.
pub set_levels-injective : (x y : Light) → set_levels x ≡ set_levels y → x ≡ y
unfolding set_levels
set_levels-injective x y h = ground arith
