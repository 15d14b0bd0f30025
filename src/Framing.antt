-- ===== src/Framing.antt =====
-- main/framing.h: where the bytes that the decoder is handed begin.
pub mod Prefix
mod Tests
use gplug_mini.Base.{ℕ, suc, ◌+◌, Bool, not, ◌&&◌, [], ◌∷◌, bit_and, Bytes, ◌==◌, if◌then◌else◌}

-- `(b & 0xF0) == 0xA0`: the class of HDLC type-3 format bytes.
unfoldable pub is_format : ℕ → Bool
is_format b = bit_and b 0xF0 == 0xA0

-- The loop of `leading_flags`; the list is the buffer from `i` on.
unfoldable pub leading_flags : Bytes → ℕ
unfolding is_format
leading_flags [] = 0
leading_flags (b ∷ []) = 0
leading_flags (b ∷ c ∷ rest) =
    let more = leading_flags (c ∷ rest) in if b == 0x7E && not (is_format c) then suc more else 0
