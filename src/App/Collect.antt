-- ===== src/App/Collect.antt =====
-- How a cycle's bytes come together in `app_main`.
use gplug_mini.Base.{
  ℕ, ◌+◌, ◌≤◌, ◌<◌, ◌≡◌, refl, sym, ◌∙◌, false, List, [], ◌∷◌, ◌++◌, map, concat, Bytes, ltb,
  length, length-append, append_assoc, append-nil, arith, lt→ltb, ◌==◌, if◌then◌else◌,
}
use gplug_mini.Aggregator.{cycle_ended}
use gplug_mini.App.{App, Effect, Parsed, max_cycle, pass}
use gplug_mini.App.Passes.{Input, passes}

-- All the bytes that the passes bring.
abbrev pub bytes_of : List Input → Bytes
bytes_of is = concat (map (λ i. i.chunk) is)

-- When the last bytes came, from a time before the passes.
unfoldable pub last_time : ℕ → List Input → ℕ
last_time t [] = t
last_time t (i ∷ is) = last_time (if length i.chunk == 0 then t else i.now) is

-- Passes that collect: each brings bytes, or comes too early to end the cycle, of which so many bytes
-- are there, the last of them from so long ago.
pub data Gathers : ℕ → ℕ → List Input → Type 0 where
  all_in : {last n : ℕ} → Gathers last n []
  brought :
      {last n : ℕ} {i : Input} {is : List Input}
      → 0 < length i.chunk
      → Gathers i.now (n + length i.chunk) is
      → Gathers last n (i ∷ is)
  early :
      {last n : ℕ} {i : Input} {is : List Input}
      → i.chunk ≡ []
      → cycle_ended i.now last n ≡ false
      → Gathers last n is
      → Gathers last n (i ∷ is)

-- What passes that only collect bytes leave.
pub record Collected {Parser : Type 0} (p : Parser) (cycle : Bytes) (last : ℕ) (a : App)
    (r : Parser × App × List Effect) : Type 0 where
  pub parser : r.0 ≡ p
  pub cycle_is : r.1.cycle ≡ cycle
  pub last_is : r.1.last_byte ≡ last
  pub set_is : r.1.set ≡ a.set
  pub serial_is : r.1.serial ≡ a.serial
  pub session_is : r.1.discovery_session ≡ a.discovery_session
  pub silent : r.2 ≡ []

module _ {Real Parser : Type 0} (real_text : Real → Bytes)
    (parse : Parser → Bytes → Parser × Parsed Real) where
  pass-collects :
      (p : Parser) (a : App) (i : Input)
      → 0 < length i.chunk
      → length a.cycle + length i.chunk ≤ max_cycle
      → ◌≡◌ {A = Parser × App × List Effect}
          (pass real_text parse p a i.chunk i.now i.broker)
          (p, record a { cycle = a.cycle ++ i.chunk; last_byte = i.now }, [])
  unfolding pass
  pass-collects p a i h k =
      let fits : ltb max_cycle (length a.cycle + length i.chunk) ≡ false = ground arith in
      rw (lt→ltb 0 (length i.chunk) h, fits) refl

  pass_waits :
      (p : Parser) (a : App) (i : Input)
      → i.chunk ≡ []
      → cycle_ended i.now a.last_byte (length a.cycle) ≡ false
      → ◌≡◌ {A = Parser × App × List Effect}
          (pass real_text parse p a i.chunk i.now i.broker)
          (p, a, [])
  unfolding pass
  pass_waits p a i none h = rw (none, h) refl

  -- Passes that each bring bytes, or come before two seconds have gone by since the last ones, and
  -- bring no more than the buffer has room for, leave those bytes in the buffer in their order, however
  -- they are cut into chunks; nothing is parsed and nothing is sent before a pass that ends the cycle.
  pub passes-Collected :
      (p : Parser) (a : App) (is : List Input)
      → Gathers a.last_byte (length a.cycle) is
      → length a.cycle + length (bytes_of is) ≤ max_cycle
      → Collected p
          (a.cycle ++ bytes_of is)
          (last_time a.last_byte is)
          a
          (passes real_text parse p a is)
  unfolding passes last_time
  passes-Collected p a [] some room = record {
    parser = refl;
    cycle_is = sym (append-nil a.cycle);
    last_is = refl;
    set_is = refl;
    serial_is = refl;
    session_is = refl;
    silent = refl;
  }
  passes-Collected p a (i ∷ is) (brought some rest) room =
      let total = length-append i.chunk (bytes_of is) in
      let one = pass-collects p a i some (omega arith) in
      let a' : App = record a { cycle = a.cycle ++ i.chunk; last_byte = i.now } in
      let size = length-append a.cycle i.chunk in
      let rest' : Gathers i.now (length (a.cycle ++ i.chunk)) is = rw size rest in
      let later = passes-Collected p a' is rest' (omega arith) in
      let time : (length i.chunk == 0) ≡ false = ground arith in
      rw (one, passes, time)
        record {
          parser = later.parser;
          cycle_is = later.cycle_is ∙ append_assoc a.cycle i.chunk (bytes_of is);
          last_is = later.last_is;
          set_is = later.set_is;
          serial_is = later.serial_is;
          session_is = later.session_is;
          silent = later.silent;
        }
  passes-Collected p a (i ∷ is) (early none soon rest) room =
      let one = pass_waits p a i none soon in
      let same : bytes_of (i ∷ is) ≡ bytes_of is = rw none refl in
      let later = passes-Collected p a is rest (rw same at room) in
      rw (one, passes, same, none)
        record {
          parser = later.parser;
          cycle_is = later.cycle_is;
          last_is = later.last_is;
          set_is = later.set_is;
          serial_is = later.serial_is;
          session_is = later.session_is;
          silent = later.silent;
        }
