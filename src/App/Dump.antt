-- ===== src/App/Dump.antt =====
-- main/app_main.cpp: what is shown on the console of a cycle in which nothing decoded.
use gplug_mini.Base.{
  ℕ, zero, suc, ◌+◌, ◌-◌, ◌*◌, ◌/◌, ◌%◌, ◌≤◌, ◌<◌, ◌≡◌, ◌⊎◌, inl, inr, refl, ap, ◌∙◌, arith, false,
  [], ◌∷◌, ◌++◌, Option, none, some, Bytes, ◌==◌, if◌then◌else◌, length, length-take, take, drop,
  min, All, All-drop, All-take, length-drop, Bool-cases,
}
use gplug_mini.Source.{nibble, parse_hex}
use gplug_mini.Source.Replay.{digit, nibble-digit}
use gplug_mini.App.{framed}

-- `"%02X "`
abbrev pub dump_byte : ℕ → Bytes
dump_byte b = digit (b / 16) ∷ digit (b % 16) ∷ b' ' ∷ []

unfoldable pub hex_dump : Bytes → Bytes
hex_dump [] = []
hex_dump (b ∷ s) = dump_byte b ++ hex_dump s

unfoldable pub count_flags : Bytes → ℕ
count_flags [] = 0
count_flags (b ∷ s) = if b == 0x7E then suc (count_flags s) else count_flags s

-- The place of the first flag, or the end of the buffer.
unfoldable pub first_flag : Bytes → ℕ
first_flag [] = 0
first_flag (b ∷ s) = if b == 0x7E then 0 else suc (first_flag s)

-- The texts of `head` and `frame`, with what is counted; `frame` is shown only where framing is.
pub record Diagnosis : Type 0 where
  pub head : Bytes
  pub flags : ℕ
  pub first : ℕ
  pub frame : Option Bytes

unfoldable pub diagnose : Bytes → Diagnosis
diagnose s = record {
  head = hex_dump (take (min (length s) 32) s);
  flags = count_flags s;
  first = first_flag s;
  frame =
      if framed s
      then some (hex_dump (take (min (length s - first_flag s) 24) (drop (first_flag s) s)))
      else none;
}

abbrev pub IsOctets : Bytes → Type 0
IsOctets = All (λ b. b < 256)

length-hex_dump : (s : Bytes) → length (hex_dump s) ≡ 3 * length s
unfolding hex_dump
length-hex_dump [] = omega arith
length-hex_dump (b ∷ s) = omega (arith, length-hex_dump s)

-- What is dumped can be read back with the reader of the simulated source.
pub parse_hex-hex_dump : (s : Bytes) → IsOctets s → parse_hex 0 0 (hex_dump s) ≡ s
unfolding parse_hex hex_dump nibble
parse_hex-hex_dump [] h = refl
parse_hex-hex_dump (b ∷ s) h =
    let high = nibble-digit (b / 16) (omega (arith, h.0)) in
    let low = nibble-digit (b % 16) (omega arith) in
    let value : (((0 * 16 + b / 16) % 256) * 16 + b % 16) % 256 ≡ b = omega (arith, h.0) in
    rw (high, low, parse_hex, value) (ap (◌∷◌ b) (parse_hex-hex_dump s h.1))

take-min : (n : ℕ) (s : Bytes) → take (min (length s) n) s ≡ take n s
take-min zero s = let none_ : min (length s) 0 ≡ 0 = omega arith in rw none_ refl
take-min (suc n) [] =
    let none_ : min (length {A = ℕ} []) (suc n) ≡ 0 = omega arith in ap (λ k. take k []) none_
take-min (suc n) (b ∷ s) =
    let next : min (length (b ∷ s)) (suc n) ≡ suc (min (length s) n) = omega arith in
    rw next (ap (◌∷◌ b) (take-min n s))

-- A flag is where the first one is said to be, or there is none.
pub first_flag_found :
    (s : Bytes)
    → ((count_flags s ≡ 0) × (first_flag s ≡ length s))
      ⊎ ((rest : Bytes) × (drop (first_flag s) s ≡ 0x7E ∷ rest)
          × (count_flags (take (first_flag s) s) ≡ 0))
unfolding count_flags first_flag
first_flag_found [] = inl (refl, refl)
first_flag_found (b ∷ s) = elim (Bool-cases (b == 0x7E)) [
  | inl e ↦
      let flag : b ≡ 0x7E = ground arith in
      inr (s, rw (e, first_flag) (ap (λ (c : ℕ). c ∷ s) flag), rw (e, first_flag) refl)
  | inr e ↦ elim (first_flag_found s) [
    | inl (none_, end) ↦ inl (rw (e, count_flags) none_, rw (e, first_flag) (ap suc end))
    | inr (rest, at, before) ↦ inr (rest, rw (e, first_flag) at, rw (e, first_flag, e) before)
  ]
]

-- What the diagnosis of a buffer shows, against the buffer and the arrays of 97 and 73 characters.
pub record Shows (s : Bytes) : Type 0 where
  pub head_is : parse_hex 0 0 (diagnose s).head ≡ take 32 s
  pub head_fits : length (diagnose s).head < 97
  pub frame_is :
      ((framed s ≡ false) × ((diagnose s).frame ≡ none))
      ⊎ ((text : Bytes) × ((diagnose s).frame ≡ some text)
          × (parse_hex 0 0 text ≡ take 24 (drop (diagnose s).first s))
          × (length text < 73))

dump-fits : (n : ℕ) (s : Bytes) → length (hex_dump (take n s)) ≤ 3 * n
dump-fits n s = omega (arith, length-hex_dump (take n s), length-take n s)

-- Whatever bytes came, the dumps fit their arrays with the NUL, and read back they are the first 32
-- bytes of the buffer, and, where framing shows and only there, the first 24 from the first flag on.
pub diagnose-Shows : (s : Bytes) → IsOctets s → Shows s
unfolding diagnose
diagnose-Shows s h =
    let k = min (length s) 32 in
    let tail = drop (first_flag s) s in
    let j = min (length s - first_flag s) 24 in
    let tail_octets = All-drop _ (first_flag s) s h in
    let size : length s - first_flag s ≡ length tail =
      omega (arith, length-drop (first_flag s) s) in
    record {
      head_is = parse_hex-hex_dump (take k s) (All-take _ k s h) ∙ take-min 32 s;
      head_fits = omega (arith, dump-fits k s);
      frame_is = elim (Bool-cases (framed s)) [
        | inr e ↦ inl (e, rw e refl)
        | inl e ↦ inr (
          hex_dump (take j tail),
          rw e refl,
          parse_hex-hex_dump (take j tail) (All-take _ j tail tail_octets)
              ∙ rw size (take-min 24 tail),
          omega (arith, dump-fits j tail),
        )
      ];
    }
