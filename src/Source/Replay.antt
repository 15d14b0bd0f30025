-- ===== src/Source/Replay.antt =====
-- main/sim_source.cpp: the reading of the capture, and its delivery over several calls.
use gplug_mini.Base.{
  ℕ, zero, suc, ◌+◌, ◌-◌, ◌*◌, ◌/◌, ◌%◌, ◌≤◌, ◌<◌, ◌≡◌, inl, inr, refl, sym, ap, ◌∙◌, arith, Bool,
  true, false, [], ◌∷◌, ◌++◌, append-nil, some, Bytes, leb, ltb, ◌==◌, if◌then◌else◌, length,
  length-drop, length-take, take_all, take-append-drop, take, drop, All, min, Bool-cases,
}
use gplug_mini.Source.{nibble, parse_hex, Sim, sim_read}

-- A byte in two capital digits.
unfoldable pub digit : ℕ → ℕ
digit n = if ltb n 10 then b'0' + n else b'A' + (n - 10)

unfoldable pub print_hex : Bytes → Bytes
print_hex [] = []
print_hex (b ∷ s) = digit (b / 16) ∷ digit (b % 16) ∷ print_hex s

pub nibble-digit : (n : ℕ) → n < 16 → nibble (digit n) ≡ some n
unfolding nibble digit
nibble-digit n h = ground arith

-- Bytes written in hexadecimal are read back.
pub parse_hex-print_hex : (s : Bytes) → All (λ b. b < 256) s → parse_hex 0 0 (print_hex s) ≡ s
unfolding parse_hex print_hex
parse_hex-print_hex [] h = refl
parse_hex-print_hex (b ∷ s) h =
    let high = nibble-digit (b / 16) (omega (arith, h.0)) in
    let low = nibble-digit (b % 16) (omega arith) in
    let value : (((0 * 16 + b / 16) % 256) * 16 + b % 16) % 256 ≡ b = omega (arith, h.0) in
    rw (high, low, parse_hex, value) (ap (◌∷◌ b) (parse_hex-print_hex s h.1))

drop-nil : (k : ℕ) → ◌≡◌ {A = Bytes} (drop k []) []
drop-nil zero = refl
drop-nil (suc k) = refl

pub drop-drop : (m n : ℕ) (xs : Bytes) → drop n (drop m xs) ≡ drop (m + n) xs
drop-drop zero n xs = ap (λ k. drop k xs) (omega arith)
drop-drop (suc m) n [] = drop-nil n ∙ sym (drop-nil (suc m + n))
drop-drop (suc m) n (x ∷ xs) =
    let sum : suc m + n ≡ suc (m + n) = omega arith in rw sum (drop-drop m n xs)

module _ (capture : Bytes) (size : ℕ) where
  -- Calls until one delivers nothing, at most so many, and the bytes of all of them.
  unfoldable pub replay : ℕ → Sim → Sim × Bytes
  replay zero s = (s, [])
  replay (suc fuel) s =
      let (s', chunk) = sim_read capture size s in
      let (s'', rest) = replay fuel s' in
      if length chunk == 0 then (s', []) else (s'', chunk ++ rest)

  abbrev at : ℕ → Bool → Sim
  at pos gap = record { pos = pos; gap_pending = gap }

  pub length-chunk : (n pos : ℕ) → n ≤ length capture - pos → length (take n (drop pos capture)) ≡ n
  length-chunk n pos h = omega (arith, length-take n (drop pos capture), length-drop pos capture)

  replay_gap :
      (fuel pos : ℕ) → 0 < length capture → replay (suc fuel) (at pos true) ≡ (at 0 false, [])
  unfolding replay sim_read
  replay_gap fuel pos h = let some_ : (length capture == 0) ≡ false = ground arith in rw some_ refl

  replay_last :
      (fuel pos : ℕ) → 0 < fuel → 0 < length capture → replay fuel (at pos true) ≡ (at 0 false, [])
  replay_last zero pos some_ h = absurd (omega arith)
  replay_last (suc fuel) pos some_ h = replay_gap fuel pos h

  abbrev pub share : ℕ → ℕ
  share pos = min size (length capture - pos)

  pub sim_read_inside :
      (pos : ℕ)
      → pos < length capture
      → sim_read capture size (at pos false) ≡ (
        at (pos + share pos) (leb (length capture) (pos + share pos)),
        take (share pos) (drop pos capture),
      )
  unfolding sim_read
  sim_read_inside pos inside =
      let some_ : (length capture == 0) ≡ false = ground arith in
      elim (Bool-cases (leb (length capture) (pos + share pos))) [
        | inl e ↦ rw (some_, e) refl
        | inr e ↦ rw (some_, e) refl
      ]

  replay_step :
      (fuel pos : ℕ)
      → 0 < size
      → pos < length capture
      → let next = replay fuel (at (pos + share pos) (leb (length capture) (pos + share pos))) in
        ◌≡◌ {A = Sim × Bytes}
          (replay (suc fuel) (at pos false))
          (next.0, take (share pos) (drop pos capture) ++ next.1)
  unfolding replay
  replay_step fuel pos room inside =
      let full = length-chunk (share pos) pos (omega arith) in
      let some_ : (length (take (share pos) (drop pos capture)) == 0) ≡ false =
        ground (arith, full) in
      rw (sim_read_inside pos inside, some_) refl

  -- With room for at least one byte, calls from any place of the capture deliver the rest of
  -- it, byte for byte, and then a silence, after which the replay is at its start again; as many
  -- calls as there are bytes left, and one more, are enough.
  pub replay-drop :
      (fuel pos : ℕ)
      → 0 < size
      → pos < length capture
      → length capture - pos < fuel
      → replay fuel (record { pos = pos; gap_pending = false })
        ≡ (record { pos = 0; gap_pending = false }, drop pos capture)
  replay-drop zero pos room inside enough = absurd (omega arith)
  replay-drop (suc fuel) pos room inside enough =
      let chunk = take (share pos) (drop pos capture) in
      elim (Bool-cases (leb (length capture) (pos + share pos))) [
        | inl last ↦
            let whole : chunk ≡ drop pos capture =
              take_all (share pos) (drop pos capture) (ground (arith, length-drop pos capture)) in
            let ended = replay_last fuel (pos + share pos) (omega arith) (omega arith) in
            replay_step fuel pos room inside
            ∙ rw (last, ended) (ap (λ (t : Bytes). (at 0 false, t)) (append-nil chunk ∙ whole))
        | inr inner ↦
            let later = replay-drop fuel (pos + share pos) room (ground arith) (ground arith) in
            let joined : chunk ++ drop (pos + share pos) capture ≡ drop pos capture =
              rw⁻¹ (drop-drop pos (share pos) capture)
                (take-append-drop (share pos) (drop pos capture)) in
            replay_step fuel pos room inside
            ∙ rw (inner, later) (ap (λ (t : Bytes). (at 0 false, t)) joined)
      ]
