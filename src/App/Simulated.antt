-- ===== src/App/Simulated.antt =====
-- The main loop over the simulated source, main/sim_source.cpp.
use gplug_mini.Base.{
  ℕ, ◌+◌, ◌-◌, ◌/◌, ◌≤◌, ◌<◌, ◌≡◌, refl, ap, ◌∙◌, arith, true, false, List, [], ◌∷◌, ◌++◌, Bytes,
  leb, ◌==◌, length, drop, take, take_all, append-nil, length-drop, All, take-append-drop,
}
use gplug_mini.Aggregator.{cycle_gap_ms, sub32}
use gplug_mini.Framing.{leading_flags}
use gplug_mini.Source.{Sim, sim_read}
use gplug_mini.Source.Replay.{sim_read_inside, share, length-chunk, drop-drop}
use gplug_mini.App.{App, Broker, Capture, Parsed, max_cycle}
use gplug_mini.App.Loop.{Run}
use gplug_mini.App.Passes.{Input, passes}
use gplug_mini.App.Cycle.{registers, Finished}
use gplug_mini.App.Collect.{bytes_of, last_time, Gathers, all_in, brought}
use gplug_mini.App.Serial.{learned}
use gplug_mini.App.Room.{IsPlausible}
use gplug_mini.App.Telegram.{telegram_message}

-- `chunk[256]`
abbrev pub chunk_size : ℕ
chunk_size = 256

-- The loop's passes at these times, each with what one call of `meter_source_read` delivers, and what
-- the source's variables then are.
unfoldable pub sim_inputs : Bytes → Broker → Sim → List ℕ → List Input × Sim
sim_inputs capture b s [] = ([], s)
sim_inputs capture b s (t ∷ ts) =
    let (s', chunk) = sim_read capture chunk_size s in
    let (is, s'') = sim_inputs capture b s' ts in
    (record { chunk = chunk; now = t; broker = b } ∷ is, s'')

abbrev pub sim_start : Sim
sim_start = record { pos = 0; gap_pending = false }

-- The last of the times.
unfoldable pub last_of : ℕ → List ℕ → ℕ
last_of t [] = t
last_of t (u ∷ us) = last_of u us

module _ (capture : Bytes) (b : Broker) where
  -- The passes that take the capture from a place to its end.
  record Played (pos last n : ℕ) (ts : List ℕ) (r : List Input × Sim) : Type 0 where
    gathers : Gathers last n r.0
    bytes : bytes_of r.0 ≡ drop pos capture
    pending : r.1.gap_pending ≡ true
    time : last_time last r.0 ≡ last_of last ts

  sim_inputs-Played :
      (ts : List ℕ) (pos last n : ℕ)
      → pos < length capture
      → length ts ≡ (length capture - pos + 255) / 256
      → Played pos last n ts (sim_inputs capture b (record { pos = pos; gap_pending = false }) ts)
  unfolding sim_inputs last_time last_of
  sim_inputs-Played [] pos last n h k = absurd (omega (arith, k))
  sim_inputs-Played (t ∷ []) pos last n h k =
      let m = share capture chunk_size pos in
      let chunk = take m (drop pos capture) in
      let size = length-chunk capture chunk_size m pos (omega arith) in
      let some_ : (length chunk == 0) ≡ false = ground (arith, size) in
      let last_one : leb (length capture) (pos + m) ≡ true = ground (arith, k) in
      let whole : chunk ≡ drop pos capture =
        take_all m (drop pos capture) (omega (arith, k, length-drop pos capture)) in
      rw (sim_read_inside capture chunk_size pos h, last_one)
        record {
          gathers = brought (omega (arith, size)) all_in;
          bytes = append-nil chunk ∙ whole;
          pending = refl;
          time = rw some_ refl;
        }
  sim_inputs-Played (t ∷ u ∷ ts) pos last n h k =
      let m = share capture chunk_size pos in
      let chunk = take m (drop pos capture) in
      let size = length-chunk capture chunk_size m pos (omega arith) in
      let some_ : (length chunk == 0) ≡ false = ground (arith, size) in
      let more : leb (length capture) (pos + m) ≡ false = ground (arith, k) in
      let rest =
        sim_inputs-Played (u ∷ ts) (pos + m) t (n + length chunk) (omega (arith, k))
          (omega (arith, k)) in
      let joined : chunk ++ drop (pos + m) capture ≡ drop pos capture =
        rw⁻¹ (drop-drop pos m capture) (take-append-drop m (drop pos capture)) in
      rw (sim_read_inside capture chunk_size pos h, more)
        record {
          gathers = brought (omega (arith, size)) rest.gathers;
          bytes = ap (◌++◌ chunk) rest.bytes ∙ joined;
          pending = rest.pending;
          time = rw some_ (rest.time);
        }

  sim_inputs-snoc :
      (s : Sim) (ts : List ℕ) (t : ℕ)
      → let r = sim_inputs capture b s ts in
        let last = sim_read capture chunk_size r.1 in
        ◌≡◌ {A = List Input × Sim}
          (sim_inputs capture b s (ts ++ t ∷ []))
          (r.0 ++ record { chunk = last.1; now = t; broker = b } ∷ [], last.0)
  unfolding sim_inputs
  sim_inputs-snoc s [] t = refl
  sim_inputs-snoc s (u ∷ ts) t =
      let one = sim_read capture chunk_size s in
      let later = sim_inputs-snoc one.0 ts t in
      let first : Input = record { chunk = one.1; now = u; broker = b } in
      ap (λ (r : List Input × Sim). (first ∷ r.0, r.1)) later

  sim_read_gap :
      (s : Sim)
      → 0 < length capture
      → s.gap_pending ≡ true
      → sim_read capture chunk_size s ≡ (sim_start, [])
  unfolding sim_read
  sim_read_gap s h k =
      let some_ : (length capture == 0) ≡ false = ground arith in rw (some_, k, sim_read) refl

module _ {Real Parser : Type 0} (real_text : Real → Bytes)
    (some_text : (x : Real) → 0 < length (real_text x))
    (parse : Parser → Bytes → Parser × Parsed Real) where
  -- What one replay comes to: the source is where it was, and the cycle is finished.
  pub record Replayed (q : Parser) (cs : List (Capture Real)) (p : Parser) (a : App)
      (r : List Input × Sim) : Type 0 where
    pub again : r.1 ≡ sim_start
    pub finished : Finished q (registers real_text cs) (passes real_text parse p a r.0)

  -- A bench device, whose source replays a capture that is not empty and no longer than the buffer: as
  -- many passes as it takes chunks of 256 bytes, whatever their times, and one more, two seconds or more
  -- behind the last of them, as the source's pause makes sure, take in the whole capture, publish
  -- the one message of the registers that the parser reports of it, if it reports plausible values of
  -- which there are any, and otherwise nothing; and both the buffer and the source are at their start
  -- again. The broker is connected, the address and the serial fit their arrays, and the serial is
  -- known or in the capture.
  pub sim_inputs-Replayed :
      (p : Parser) (a : App) (capture : Bytes) (b : Broker) (ts : List ℕ) (t : ℕ) {q : Parser}
      {cs : List (Capture Real)} {n : ℕ}
      → a.cycle ≡ []
      → 0 < length capture
      → length capture ≤ max_cycle
      → length ts ≡ (length capture + 255) / 256
      → cycle_gap_ms ≤ sub32 t (last_of a.last_byte ts)
      → b.connected ≡ true
      → length b.mac < 18
      → length a.serial ≤ 31
      → 0 < length (learned real_text a.serial cs)
      → Run real_text parse p (drop (leading_flags capture) capture) q cs n
      → All (IsPlausible real_text) cs
      → Replayed q cs p a (sim_inputs capture b sim_start (ts ++ t ∷ []))
  sim_inputs-Replayed p a capture b ts t {q} {cs} {n} empty some_ room count gap up mac short known
        run plausible =
      let played = sim_inputs-Played capture b ts 0 a.last_byte 0 some_ (omega (arith, count)) in
      let r = sim_inputs capture b sim_start ts in
      let silence : Input = record { chunk = []; now = t; broker = b } in
      let run' : Run real_text parse p (drop (leading_flags (bytes_of r.0)) (bytes_of r.0)) q cs n =
        rw (played.bytes) run in
      let done =
        telegram_message real_text some_text parse p a r.0 silence empty played.gathers
          (rw (played.bytes) some_) (rw (played.bytes) room) refl (rw (played.time) gap) up mac
          short known run' plausible in
      rw (sim_inputs-snoc capture b sim_start ts t, sim_read_gap capture b r.1 some_ played.pending)
        record { again = refl; finished = done }
