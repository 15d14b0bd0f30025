-- ===== src/Framing/Prefix.antt =====
-- What `leading_flags` drops, and where it stops.
use gplug_mini.Base.{
  ℕ, zero, suc, ◌≤◌, ◌<◌, Bool, true, false, not, ◌&&◌, [], ◌∷◌, ◌++◌, ◌≡◌, ◌≢◌, ◌⊎◌, refl, arith,
  Bytes, leb, length, take, drop, replicate, All, holds_under, holds_under_sound, ◌↔◌,
}
use gplug_mini.Framing.{is_format, leading_flags}

in_class : ℕ → Bool
in_class b = leb 0xA0 b && leb b 0xAF

same : Bool → Bool → Bool
same true b = b
same false b = not b

same-eq : (a b : Bool) → same a b ≡ true → a ≡ b
unfolding same
same-eq a b h = ground arith

format_table : holds_under (λ b. same (is_format b) (in_class b)) 256 ≡ true
unfolding holds_under is_format in_class same
format_table = refl

-- Of the bytes, exactly 0xA0 to 0xAF are format bytes.
pub is_format_range : (b : ℕ) → b < 256 → (is_format b ≡ true) ↔ ((0xA0 ≤ b) × (b ≤ 0xAF))
unfolding in_class
is_format_range b h =
    rw (same-eq _ _ (holds_under_sound (λ b. same (is_format b) (in_class b)) 256 format_table h))
      (ground arith)

-- A buffer at which the search stops: at its last byte or past it, at a byte that is no flag, or
-- at a flag with a format byte behind it.
abbrev pub Starts : Bytes → Type 0
Starts [] = Unit
Starts (b ∷ []) = Unit
Starts (b ∷ c ∷ rest) = (b ≢ 0x7E) ⊎ (is_format c ≡ true)

leading_flags-All : (s : Bytes) → All (λ b. b ≡ 0x7E) (take (leading_flags s) s)
unfolding leading_flags
leading_flags-All [] = tt
leading_flags-All (b ∷ []) = tt
leading_flags-All (b ∷ c ∷ rest) = ground (arith, leading_flags-All (c ∷ rest))

leading_flags-Starts : (s : Bytes) → Starts (drop (leading_flags s) s)
unfolding leading_flags
leading_flags-Starts [] = tt
leading_flags-Starts (b ∷ []) = tt
leading_flags-Starts (b ∷ c ∷ rest) = ground (arith, leading_flags-Starts (c ∷ rest))

leading_flags-lt : (b : ℕ) (s : Bytes) → leading_flags (b ∷ s) < length (b ∷ s)
unfolding leading_flags
leading_flags-lt b [] = omega arith
leading_flags-lt b (c ∷ rest) = ground (arith, leading_flags-lt c rest)

-- In a buffer with a byte in it, the bytes that are dropped are all flags, what is left begins
-- where a frame may start, and at least one byte is left.
pub leading_flags_only :
    (b : ℕ) (s : Bytes)
    → All (λ x. x ≡ 0x7E) (take (leading_flags (b ∷ s)) (b ∷ s))
      × Starts (drop (leading_flags (b ∷ s)) (b ∷ s))
      × (leading_flags (b ∷ s) < length (b ∷ s))
leading_flags_only b s =
    (leading_flags-All (b ∷ s), leading_flags-Starts (b ∷ s), leading_flags-lt b s)

-- Nothing is dropped exactly where a frame may start.
pub leading_flags-zero : (s : Bytes) → (leading_flags s ≡ 0) ↔ Starts s
unfolding leading_flags
leading_flags-zero [] = (λ _. tt, λ _. refl)
leading_flags-zero (b ∷ []) = (λ _. tt, λ _. refl)
leading_flags-zero (b ∷ c ∷ rest) = ground arith

flag_not_format : is_format 0x7E ≡ false
unfolding is_format
flag_not_format = refl

-- However many closing flags stand before a frame, the skip ends at the frame's own flag.
pub leading_flags-replicate :
    (k f : ℕ) (rest : Bytes)
    → is_format f ≡ true
    → leading_flags (replicate k 0x7E ++ (0x7E ∷ f ∷ rest)) ≡ k
unfolding leading_flags
leading_flags-replicate zero f rest h = ground arith
leading_flags-replicate (suc zero) f rest h =
    ground (arith, flag_not_format, leading_flags-replicate zero f rest h)
leading_flags-replicate (suc (suc k)) f rest h =
    ground (arith, flag_not_format, leading_flags-replicate (suc k) f rest h)
