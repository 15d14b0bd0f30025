-- ===== src/Framing/Tests.antt =====
-- The framing at small buffers.
use gplug_mini.Base.{◌≡◌, refl, [], ◌∷◌, Bytes}
use gplug_mini.Framing.{is_format, leading_flags}

abbrev two_flags : Bytes
two_flags = 0x7E ∷ 0xA0 ∷ 1 ∷ []

leading_flags_test : leading_flags (0x7E ∷ two_flags) ≡ 1
unfolding leading_flags is_format
leading_flags_test = refl
