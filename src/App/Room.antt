-- ===== src/App/Room.antt =====
-- main/app_main.cpp and main/obis_map.cpp: the registers that `on_value` can add, against the room of
-- the message in main/aggregator.h.
use gplug_mini.Base.{
  ℕ, ◌+◌, ◌^◌, ◌≤◌, ◌<◌, ◌≡◌, refl, Bool, true, not, ◌&&◌, ◌||◌, List, [], ◌∷◌, ◌++◌, Option, none,
  some, Bytes, codes, arith, str_eq, if◌then◌else◌, length, c_str, take, All, All-append,
  Bool-cases, inl, inr, decimal, length-decimal-le,
}
use gplug_mini.CycleSet.{json_size, max_values}
use gplug_mini.CycleSet.Message.{has, body}
use gplug_mini.CycleSet.Room.{IsListed, total, keep_room}
use gplug_mini.Obis.{ObisEntry, obis_lookup, table}
use gplug_mini.Obis.Lookup.{all_entries, obis_lookup-test}
use gplug_mini.App.{Capture, raw_from, is_cumulative}
use gplug_mini.App.Values.{reading, readings, raw_from-big_endian}
use gplug_mini.App.Cycle.{registers}

abbrev counters : List Bytes
counters =
    codes "active_energy_plus"
    ∷ codes "active_energy_minus"
    ∷ codes "reactive_energy_q1"
    ∷ codes "reactive_energy_q2"
    ∷ codes "reactive_energy_q3"
    ∷ codes "reactive_energy_q4"
    ∷ []

-- The labels of the table, each once.
abbrev known : List Bytes
known =
    counters
    ++ codes "meter_serial"
      ∷ codes "device_id_2"
      ∷ codes "meter_clock"
      ∷ codes "active_power_plus"
      ∷ codes "active_power_minus"
      ∷ codes "reactive_power_plus"
      ∷ codes "reactive_power_minus"
      ∷ codes "power_factor"
      ∷ []

-- The room of a member: 20 digits for a counter, 13 characters for another value.
unfoldable weight : Bytes → ℕ
weight l = 4 + length l + (if has l counters then 20 else 13)

abbrev is_known : ObisEntry → Bool
is_known e = has e.label known && (not (is_cumulative e.kind) || has e.label counters)

table_known : all_entries is_known table ≡ true
unfolding all_entries table has str_eq
table_known = refl

weights : total weight known ≡ 509
unfolding total weight has str_eq
weights = refl

raw_from-lt : (s : Bytes) → All (λ b. b < 256) s → raw_from 0 s < 2 ^ 64
raw_from-lt s h = omega (arith, raw_from-big_endian s h)

counter-le : (s : Bytes) → All (λ b. b < 256) s → length (decimal (raw_from 0 s)) ≤ 20
counter-le s h = length-decimal-le 19 (raw_from 0 s) (omega (arith, raw_from-lt s h))

module _ {Real : Type 0} (real_text : Real → Bytes) where
  -- What a value of a meter is: bytes, and a measurement whose text has at most 13 characters, as
  -- that of a number below 10 ^ 8 with three decimals has.
  pub record IsPlausible (c : Capture Real) : Type 0 where
    pub bytes : All (λ b. b < 256) c.value
    pub size : length (real_text c.real) ≤ 13

  reading-IsListed :
      (o : Option ObisEntry) (c : Capture Real)
      → IsPlausible c
      → ((e : ObisEntry) → o ≡ some e → is_known e ≡ true)
      → All (IsListed weight known) (reading real_text o c)
  unfolding reading weight
  reading-IsListed none c p h = tt
  reading-IsListed (some e) c p h =
      let k = h e refl in
      elim (Bool-cases c.numeric) [
        | inr n ↦ rw (n, reading) tt
        | inl n ↦ elim (Bool-cases (is_cumulative e.kind)) [
          | inl kind ↦
              let counted : has e.label counters ≡ true = ground arith in
              rw (n, kind, reading)
                (
                  record {
                    listed = ground arith;
                    weighed = rw counted (omega (arith, counter-le c.value p.bytes));
                  },
                  tt,
                )
          | inr kind ↦
              rw (n, kind, reading)
                (record { listed = ground arith; weighed = ground (arith, p.size) }, tt)
        ]
      ]

  readings-IsListed :
      (cs : List (Capture Real))
      → All IsPlausible cs
      → All (IsListed weight known) (readings real_text cs)
  unfolding readings
  readings-IsListed [] h = tt
  readings-IsListed (c ∷ cs) h =
      let code = c_str (take 39 c.obis) in
      All-append (IsListed weight known) (reading real_text (obis_lookup code) c)
        (readings real_text cs)
        (reading-IsListed (obis_lookup code) c h.0
          (λ e f. obis_lookup-test is_known code table_known f))
        (readings-IsListed cs h.1)

  -- Whatever values the parser reports, if each is plausible then the registers of the cycle are no
  -- more than `labels_` has rows, and their message fits `json_` with its closing brace and its NUL.
  pub registers_room :
      (cs : List (Capture Real))
      → All IsPlausible cs
      → (length (registers real_text cs) ≤ max_values)
        × (length (body (registers real_text cs)) + 2 < json_size)
  registers_room cs h =
      let room = keep_room weight known (readings real_text cs) (readings-IsListed cs h) in
      (omega (arith, room.1), omega (arith, room.0, weights))
