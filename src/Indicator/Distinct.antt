-- ===== src/Indicator/Distinct.antt =====
-- main/indicator.h: the indications, told apart by their patterns and by what the task shows.
use gplug_mini.Base.{ℕ, ◌*◌, ◌<◌, ◌≡◌, ◌≢◌, arith, true, false, Bool-cases, inl, inr}
use gplug_mini.Indicator.{
  Indication, boot, provisioning, connecting, linked, operational, updating, Light, pattern_for,
  distinguishable, name_of, same, shown, light_eq, tick_ms,
}

-- The table passes the check that `distinguishable` makes, for every pair.
pub distinguishable_all : (i j : Indication) → distinguishable i j ≡ true
unfolding distinguishable pattern_for same
distinguishable_all i j = ground arith

-- Each indication has a name of its own.
pub name_of-injective : (i j : Indication) → name_of i ≡ name_of j → i ≡ j
unfolding name_of
name_of-injective i j h = ground arith

-- An indication as the task shows it, `k` ticks in, with no pulse.
abbrev pub shown_at : Indication → ℕ → Light
shown_at i k = shown (record { current = i; pulse_until_us = 0; elapsed = k * tick_ms }) 0

-- A tick at which two indications differ.
unfoldable pub differ_at : Indication → Indication → ℕ
differ_at connecting linked = 20
differ_at linked connecting = 20
differ_at boot connecting = 30
differ_at connecting boot = 30
differ_at boot linked = 30
differ_at linked boot = 30
differ_at connecting operational = 0
differ_at provisioning updating = 4
differ_at updating provisioning = 4
differ_at _ _ = 0

differ_test :
    (i j : Indication)
    → same i j ≡ false
    → light_eq (shown_at i (differ_at i j)) (shown_at j (differ_at i j)) ≡ false
unfolding differ_at shown pattern_for same
differ_test i j h = ground arith

same_sound : (i j : Indication) → same i j ≡ true → i ≡ j
unfolding same
same_sound i j h = ground arith

differ_soon : (i j : Indication) → differ_at i j < 40
unfolding differ_at
differ_soon i j = ground arith

light_eq_refl : (x : Light) → light_eq x x ≡ true
light_eq_refl x = ground arith

-- Whoever watches for a second sees two different indications apart: at some tick among the first
-- forty the lights differ.
pub shown_apart : (i j : Indication) → i ≢ j → (k : ℕ) × (k < 40) × (shown_at i k ≢ shown_at j k)
shown_apart i j h = elim (Bool-cases (same i j)) [
  | inl e ↦ absurd (h (same_sound i j e))
  | inr e ↦
      let differ = differ_test i j e in
      (
        differ_at i j,
        differ_soon i j,
        λ p. cc (p, differ, light_eq_refl (shown_at j (differ_at i j))),
      )
]
