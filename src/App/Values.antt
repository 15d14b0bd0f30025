-- ===== src/App/Values.antt =====
-- What a decoded value does to the cycle's set and to the meter's serial.
use gplug_mini.Base.{
  ℕ, ◌+◌, ◌*◌, ◌%◌, ◌^◌, ◌≤◌, ◌<◌, ◌≡◌, refl, sym, ap, ◌∙◌, true, not, ◌&&◌, List, [], ◌∷◌, ◌++◌,
  Option, none, some, Bytes, leb, if◌then◌else◌, length, take, length-take, c_str, length-c_str-le,
  All, decimal, holds_under, holds_under_sound, leb→le, arith, Bool-cases, inl, inr,
}
use native.Mathlib.Nat.{pow-suc}
use gplug_mini.CycleSet.{CycleSet, add_integer, add_real, add_text}
use gplug_mini.CycleSet.Message.{Reading}
use gplug_mini.CycleSet.Cycle.{add_all}
use gplug_mini.Obis.{ObisEntry, obis_lookup, is_identity}
use gplug_mini.App.{
  Capture, App, raw_from, is_cumulative, is_nil, on_text, on_number, on_entry, on_value, on_values,
}

-- The number that big-endian bytes stand for.
unfoldable pub big_endian : ℕ → Bytes → ℕ
big_endian n [] = n
big_endian n (b ∷ s) = big_endian (n * 256 + b) s

raw_from-mod :
    (n : ℕ) (s : Bytes) → All (λ b. b < 256) s → raw_from (n % 2 ^ 64) s ≡ big_endian n s % 2 ^ 64
unfolding raw_from big_endian
raw_from-mod n [] h = refl
raw_from-mod n (b ∷ s) h =
    let step : ((n % 2 ^ 64) * 256) % 2 ^ 64 + b ≡ (n * 256 + b) % 2 ^ 64 = omega (arith, h.0) in
    rw step (raw_from-mod (n * 256 + b) s h.1)

mul_mono : (a b p : ℕ) → a ≤ b → a * p ≤ b * p
mul_mono a b p h = grind arith

big_endian-lt :
    (n : ℕ) (s : Bytes) → All (λ b. b < 256) s → big_endian n s < (n + 1) * 256 ^ length s
unfolding big_endian
big_endian-lt n [] h = omega arith
big_endian-lt n (b ∷ s) h =
    let ih : big_endian n (b ∷ s) < (n * 256 + b + 1) * 256 ^ length s =
      big_endian-lt (n * 256 + b) s h.1 in
    let below = mul_mono (n * 256 + b + 1) (n * 256 + 256) (256 ^ length s) (omega (arith, h.0)) in
    let more : 256 ^ length (b ∷ s) ≡ 256 ^ length s * 256 = pow-suc 256 (length s) in
    rw more (omega arith)

pow_table : holds_under (λ n. leb (256 ^ n) (2 ^ 64)) 9 ≡ true
unfolding holds_under
pow_table = refl

-- A register's bytes, whatever their number, give their big-endian number modulo `2 ^ 64`.
pub raw_from-big_endian :
    (s : Bytes) → All (λ b. b < 256) s → raw_from 0 s ≡ big_endian 0 s % 2 ^ 64
raw_from-big_endian s h = raw_from-mod 0 s h

-- A register of at most eight bytes is carried exactly.
pub raw_from_exact :
    (s : Bytes) → All (λ b. b < 256) s → length s ≤ 8 → raw_from 0 s ≡ big_endian 0 s
raw_from_exact s h k =
    let small : leb (256 ^ length s) (2 ^ 64) ≡ true =
      holds_under_sound (λ n. leb (256 ^ n) (2 ^ 64)) 9 {k = length s} pow_table (omega arith) in
    omega (arith, raw_from-mod 0 s h, big_endian-lt 0 s h, leb→le (256 ^ length s) (2 ^ 64) small)

module _ {Real : Type 0} (real_text : Real → Bytes) where
  -- What a value adds to the state message: nothing, if its code is not in the table or it is no
  -- number; otherwise the label, and the text of the exact integer or of the scaled `double`.
  unfoldable pub reading : Option ObisEntry → Capture Real → List Reading
  reading none c = []
  reading (some e) c =
      if c.numeric
      then (if is_cumulative e.kind
          then (e.label, decimal (raw_from 0 c.value)) ∷ []
          else (e.label, real_text c.real) ∷ [])
      else []

  unfoldable pub readings : List (Capture Real) → List Reading
  readings [] = []
  readings (c ∷ cs) = reading (obis_lookup (c_str (take 39 c.obis))) c ++ readings cs

  on_entry-set :
      (a : App) (e : Option ObisEntry) (c : Capture Real)
      → (on_entry real_text a e c).set ≡ add_all a.set (reading e c)
  unfolding on_entry on_text on_number reading add_all add_integer add_real
  on_entry-set a none c = refl
  on_entry-set a (some e) c = ground arith

  add_all-append :
      (s : CycleSet) (xs ys : List Reading) → add_all s (xs ++ ys) ≡ add_all (add_all s xs) ys
  unfolding add_all
  add_all-append s [] ys = refl
  add_all-append s ((l, v) ∷ xs) ys = add_all-append (add_text s l v).0 xs ys

  on_value-set :
      (a : App) (c : Capture Real)
      → (on_value real_text a c).set
        ≡ add_all a.set (reading (obis_lookup (c_str (take 39 c.obis))) c)
  unfolding on_value
  on_value-set a c =
      on_entry-set (record a { values = a.values + 1 }) (obis_lookup (c_str (take 39 c.obis))) c

  -- The values of a parse are added to the set in their order, each as its reading.
  pub on_values-set :
      (a : App) (cs : List (Capture Real))
      → (on_values real_text a cs).set ≡ add_all a.set (readings cs)
  unfolding on_values readings
  on_values-set a [] = unfold add_all in refl
  on_values-set a (c ∷ cs) =
      on_values-set (on_value real_text a c) cs
      ∙ ap (λ (s : CycleSet). add_all s (readings cs)) (on_value-set a c)
      ∙ sym (add_all-append a.set (reading (obis_lookup (c_str (take 39 c.obis))) c) (readings cs))

  on_entry-serial :
      (a : App) (e : Option ObisEntry) (c : Capture Real)
      → 0 < length a.serial
      → (on_entry real_text a e c).serial ≡ a.serial
  unfolding on_entry on_text on_number
  on_entry-serial a none c h = refl
  on_entry-serial a (some e) c h = ground arith

  on_value-serial :
      (a : App) (c : Capture Real)
      → 0 < length a.serial
      → (on_value real_text a c).serial ≡ a.serial
  unfolding on_value
  on_value-serial a c h =
      on_entry-serial (record a { values = a.values + 1 }) (obis_lookup (c_str (take 39 c.obis))) c
        h

  -- Once the meter's serial is known, no value changes it.
  pub on_values-serial :
      (a : App) (cs : List (Capture Real))
      → 0 < length a.serial
      → (on_values real_text a cs).serial ≡ a.serial
  unfolding on_values
  on_values-serial a [] h = refl
  on_values-serial a (c ∷ cs) h =
      let one = on_value-serial a c h in
      on_values-serial (on_value real_text a c) cs (rw one h) ∙ one

  on_text-serial-le :
      (a : App) (e : ObisEntry) (t : Bytes)
      → length a.serial ≤ 31
      → length (c_str (take 31 t)) ≤ 31
      → length (on_text real_text a e t).serial ≤ 31
  unfolding on_text
  on_text-serial-le a e t h k =
      elim (Bool-cases (is_identity e.kind && (is_nil a.serial && not (is_nil t)))) [
        | inl c ↦ rw (c, on_text) k
        | inr c ↦ rw (c, on_text) h
      ]

  on_number-serial :
      (a : App) (e : ObisEntry) (c : Capture Real) → (on_number real_text a e c).serial ≡ a.serial
  unfolding on_number
  on_number-serial a e c = ground arith

  on_entry-serial-le :
      (a : App) (e : Option ObisEntry) (c : Capture Real)
      → length a.serial ≤ 31
      → length (on_entry real_text a e c).serial ≤ 31
  unfolding on_entry on_number
  on_entry-serial-le a none c h = h
  on_entry-serial-le a (some e) c h =
      let cut = length-c_str-le (take 31 c.text) in
      let text = on_text-serial-le a e c.text h (omega (arith, cut, length-take 31 c.text)) in
      elim (Bool-cases c.numeric) [
        | inl n ↦ rw (n, on_entry, on_number-serial a e c) h
        | inr n ↦ rw (n, on_entry) text
      ]

  -- The serial never outgrows its array of 32 characters.
  pub on_values-serial-le :
      (a : App) (cs : List (Capture Real))
      → length a.serial ≤ 31
      → length (on_values real_text a cs).serial ≤ 31
  unfolding on_values on_value
  on_values-serial-le a [] h = h
  on_values-serial-le a (c ∷ cs) h = on_values-serial-le (on_value real_text a c) cs (
      on_entry-serial-le (record a { values = a.values + 1 }) (obis_lookup (c_str (take 39 c.obis)))
        c h)

  on_entry-keeps :
      (a : App) (e : Option ObisEntry) (c : Capture Real)
      → ((on_entry real_text a e c).cycle ≡ a.cycle)
        × ((on_entry real_text a e c).discovery_session ≡ a.discovery_session)
        × ((on_entry real_text a e c).undecoded ≡ a.undecoded)
        × ((on_entry real_text a e c).last_byte ≡ a.last_byte)
  unfolding on_entry on_text on_number
  on_entry-keeps a none c = (refl, refl, refl, refl)
  on_entry-keeps a (some e) c = ground arith

  on_value-keeps :
      (a : App) (c : Capture Real)
      → ((on_value real_text a c).cycle ≡ a.cycle)
        × ((on_value real_text a c).discovery_session ≡ a.discovery_session)
        × ((on_value real_text a c).undecoded ≡ a.undecoded)
        × ((on_value real_text a c).last_byte ≡ a.last_byte)
  unfolding on_value
  on_value-keeps a c =
      on_entry-keeps (record a { values = a.values + 1 }) (obis_lookup (c_str (take 39 c.obis))) c

  -- Nothing else of the device's state but the count of values is touched.
  pub on_values-keeps :
      (a : App) (cs : List (Capture Real))
      → ((on_values real_text a cs).cycle ≡ a.cycle)
        × ((on_values real_text a cs).discovery_session ≡ a.discovery_session)
        × ((on_values real_text a cs).undecoded ≡ a.undecoded)
        × ((on_values real_text a cs).last_byte ≡ a.last_byte)
  unfolding on_values
  on_values-keeps a [] = (refl, refl, refl, refl)
  on_values-keeps a (c ∷ cs) =
      let one = on_value-keeps a c in
      let more = on_values-keeps (on_value real_text a c) cs in
      (more.0 ∙ one.0, more.1 ∙ one.1, more.2 ∙ one.2, more.3 ∙ one.3)
