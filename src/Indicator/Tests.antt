-- ===== src/Indicator/Tests.antt =====
-- A pulse, over a dark light.
use gplug_mini.Base.{◌≡◌, refl}
use gplug_mini.Indicator.{Led, operational, dark, green_light, pattern_for, shown, indicate_publish}

abbrev calm : Led
calm = record { current = operational; pulse_until_us = 0; elapsed = 75 }

pulse_test :
    (shown (indicate_publish calm 1000000) 1050000 ≡ green_light)
    × (shown (indicate_publish calm 1000000) 1100000 ≡ dark)
unfolding shown indicate_publish pattern_for
pulse_test = (refl, refl)
