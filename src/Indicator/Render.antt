-- ===== src/Indicator/Render.antt =====
-- What the task shows over time.
use gplug_mini.Base.{ℕ, ◌+◌, ◌≡◌, inl, inr, refl, ltb, Bool-cases, if◌then◌else◌}
use gplug_mini.Indicator.{operational, Led, dark, green_light, pattern_for, shown, indicate_publish}

-- A publication while the device is operational is seen as green light for 100 milliseconds from
-- its time, and darkness after them, whatever the task's own clock says.
pub shown-indicate_publish :
    (l : Led) (published now : ℕ)
    → l.current ≡ operational
    → shown (indicate_publish l published) now
      ≡ (if ltb now (published + 100000) then green_light else dark)
unfolding shown indicate_publish pattern_for
shown-indicate_publish l published now calm = elim (Bool-cases (ltb now (published + 100000))) [
  | inl e ↦ simp (e, calm, pattern_for) refl
  | inr e ↦ simp (e, calm, pattern_for) refl
]
