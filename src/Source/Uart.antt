-- ===== src/Source/Uart.antt =====
-- main/meter_uart.cpp: what the UART driver is told. The driver is not part of the program: its calls
-- are a list, and that one that is checked fails, which stops the device, is left out.
use gplug_mini.Base.{
  ℕ, zero, suc, ◌+◌, ◌%◌, ◌<◌, ◌≡◌, refl, sym, ap, ◌∙◌, arith, Bool, true, false, List, [], ◌∷◌,
  ◌++◌, Option, none, some, if◌then◌else◌, All, All-append, Bool-cases, Option-cases, inl, inr,
}
use gplug_mini.Source.{Parity, LineConfig, applied, try_next_line}

-- A pin is `none` where it is left as it is. `configure` has the rate, the data bits, the parity and
-- the stop bits; `install` the sizes of the two buffers.
pub data UartCall : Type 0 where
  install : ℕ → ℕ → UartCall
  configure : ℕ → ℕ → Parity → ℕ → UartCall
  set_pins : (tx rx rts cts : Option ℕ) → UartCall
  invert_receive : Bool → UartCall
  flush : UartCall

pub record Uart : Type 0 where
  pub candidate : ℕ
  pub driver_installed : Bool

abbrev pub uart_start : Uart
uart_start = record { candidate = 0; driver_installed = false }

abbrev pub rx_buffer : ℕ
rx_buffer = 1024

-- `apply(CANDIDATES[candidate])`; there is no candidate outside the table.
unfoldable pub apply : Uart → Uart × List UartCall
apply u = elim (applied u.candidate) [
  | none ↦ (u, [])
  | some c ↦ (
    record u { driver_installed = true },
    (if u.driver_installed then [] else install rx_buffer 0 ∷ [])
        ++ configure 2400 8 c.parity 1
          ∷ set_pins none (some 7) none none
          ∷ invert_receive c.invert
          ∷ flush
          ∷ [],
  )
]

unfoldable pub meter_source_try_next_line : Uart → Uart × List UartCall
meter_source_try_next_line u = apply (record u { candidate = try_next_line u.candidate })

-- The start, and a number of calls for the next line.
unfoldable pub uart_calls : ℕ → Uart × List UartCall
uart_calls zero = apply uart_start
uart_calls (suc n) =
    let (u, before) = uart_calls n in
    let (v, calls) = meter_source_try_next_line u in (v, before ++ calls)

-- Nothing is sent: the one pin that is given is that for receiving, and no buffer is for sending.
unfoldable pub Listens : UartCall → Type 0
Listens (install rx tx) = tx ≡ 0
Listens (set_pins tx rx rts cts) = (tx ≡ none) × (rx ≡ some 7) × (rts ≡ none) × (cts ≡ none)
Listens _ = Unit

unfoldable pub installs : List UartCall → ℕ
installs [] = 0
installs (install rx tx ∷ calls) = suc (installs calls)
installs (_ ∷ calls) = installs calls

-- The settings that the calls leave, from those before them.
unfoldable pub in_force : LineConfig → List UartCall → LineConfig
in_force c [] = c
in_force c (configure baud bits parity stop ∷ calls) = in_force (record c { parity = parity }) calls
in_force c (invert_receive invert ∷ calls) = in_force (record c { invert = invert }) calls
in_force c (_ ∷ calls) = in_force c calls

applied-some : (c : ℕ) → c < 4 → (l : LineConfig) × (applied c ≡ some l)
applied-some zero h = (_, refl)
applied-some (suc zero) h = (_, refl)
applied-some (suc (suc zero)) h = (_, refl)
applied-some (suc (suc (suc zero))) h = (_, refl)
applied-some (suc (suc (suc (suc c)))) h = absurd (omega arith)

in_force-append :
    (c : LineConfig) (xs ys : List UartCall) → in_force c (xs ++ ys) ≡ in_force (in_force c xs) ys
unfolding in_force
in_force-append c [] ys = refl
in_force-append c (install rx tx ∷ xs) ys = in_force-append c xs ys
in_force-append c (configure b d p s ∷ xs) ys = in_force-append (record c { parity = p }) xs ys
in_force-append c (set_pins t r s d ∷ xs) ys = in_force-append c xs ys
in_force-append c (invert_receive i ∷ xs) ys = in_force-append (record c { invert = i }) xs ys
in_force-append c (flush ∷ xs) ys = in_force-append c xs ys

installs-append : (xs ys : List UartCall) → installs (xs ++ ys) ≡ installs xs + installs ys
unfolding installs
installs-append [] ys = omega arith
installs-append (install rx tx ∷ xs) ys = omega (arith, installs-append xs ys)
installs-append (configure b d p s ∷ xs) ys = installs-append xs ys
installs-append (set_pins t r s d ∷ xs) ys = installs-append xs ys
installs-append (invert_receive i ∷ xs) ys = installs-append xs ys
installs-append (flush ∷ xs) ys = installs-append xs ys

-- What so many calls leave behind, with the settings in force at `line` before them.
pub record Listening (n : ℕ) (line : LineConfig) (r : Uart × List UartCall) : Type 0 where
  pub candidate : r.0.candidate ≡ n % 4
  pub installed : r.0.driver_installed ≡ true
  pub once : installs r.1 ≡ 1
  pub listens : All Listens r.1
  pub settings : applied (n % 4) ≡ some (in_force line r.1)

pub apply_candidate : (u : Uart) → (apply u).0.candidate ≡ u.candidate
unfolding apply
apply_candidate u = elim (Option-cases (applied u.candidate)) [
  | inl e ↦ rw (e, apply) refl
  | inr (c, e) ↦ rw (e, apply) refl
]

-- One application of a candidate.
record Applied (u : Uart) (line : LineConfig) (r : Uart × List UartCall) : Type 0 where
  candidate : r.0.candidate ≡ u.candidate
  installed : r.0.driver_installed ≡ true
  once : installs r.1 ≡ (if u.driver_installed then 0 else 1)
  listens : All Listens r.1
  settings : applied u.candidate ≡ some (in_force line r.1)

apply-Applied : (u : Uart) (line : LineConfig) → u.candidate < 4 → Applied u line (apply u)
unfolding apply installs Listens in_force
apply-Applied u line h =
    let (l, found) = applied-some u.candidate h in
    elim (Bool-cases u.driver_installed) [
      | inl e ↦
          rw (found, apply, e)
            record {
              candidate = refl;
              installed = refl;
              once = refl;
              listens = (tt, ((refl, refl, refl, refl), (tt, (tt, tt))));
              settings = found;
            }
      | inr e ↦
          rw (found, apply, e)
            record {
              candidate = refl;
              installed = refl;
              once = refl;
              listens = (refl, (tt, ((refl, refl, refl, refl), (tt, (tt, tt)))));
              settings = found;
            }
    ]

tried : (c n : ℕ) → c ≡ n % 4 → try_next_line c ≡ suc n % 4
unfolding try_next_line
tried c n h = omega (arith, h)

again :
    (u : Uart) {k : ℕ}
    → u.driver_installed ≡ true
    → k ≡ (if u.driver_installed then 0 else 1)
    → k ≡ 0
again u h e = ground arith

-- However often the next line is tried, the driver is installed once, nothing is ever set up to be
-- sent, and the settings in force are those of the candidate in turn, whatever they were before.
pub uart_calls-Listening : (n : ℕ) (line : LineConfig) → Listening n line (uart_calls n)
unfolding uart_calls meter_source_try_next_line
uart_calls-Listening zero line =
    let first = apply-Applied uart_start line (omega arith) in
    record {
      candidate = first.candidate;
      installed = first.installed;
      once = first.once;
      listens = first.listens;
      settings = first.settings;
    }
uart_calls-Listening (suc n) line =
    let before = uart_calls-Listening n line in
    let u = (uart_calls n).0 in
    let calls = (uart_calls n).1 in
    let next : Uart = record u { candidate = try_next_line u.candidate } in
    let place : next.candidate ≡ suc n % 4 = tried u.candidate n before.candidate in
    let one = apply-Applied next (in_force line calls) (rw place (omega arith)) in
    let more = (meter_source_try_next_line u).1 in
    record {
      candidate = one.candidate ∙ place;
      installed = one.installed;
      once =
          omega (arith, installs-append calls more, before.once, again u before.installed one.once);
      listens = All-append _ calls more before.listens one.listens;
      settings = rw (in_force-append line calls more) (ap applied (sym place) ∙ one.settings);
    }
