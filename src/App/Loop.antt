-- ===== src/App/Loop.antt =====
-- main/app_main.cpp: the calls of the parser over one cycle's bytes.
use gplug_mini.Base.{
  ℕ, zero, suc, ◌+◌, ◌≤◌, ◌<◌, ◌≡◌, refl, sym, ap, ◌∙◌, false, List, [], ◌∷◌, ◌++◌, Bytes, ◌==◌,
  length, drop, length-drop, arith, Bool-cases, inl, inr,
}
use gplug_mini.App.{Capture, App, Parsed, parse_from, on_value, on_values}

module _ {Real Parser : Type 0} (real_text : Real → Bytes)
    (parse : Parser → Bytes → Parser × Parsed Real) where
  -- The parser, called on what is left until nothing is or a call consumes nothing: from state `p`
  -- on `rest` it ends in state `q`, with these values and this many objects.
  pub data Run : Parser → Bytes → Parser → List (Capture Real) → ℕ → Type 0 where
    ended : {p : Parser} → Run p [] p [] 0
    stuck :
        {p q : Parser} {b : ℕ} {rest : Bytes} {r : Parsed Real}
        → parse p (b ∷ rest) ≡ (q, r)
        → r.consumed ≡ 0
        → Run p (b ∷ rest) q r.captures r.count
    more :
        {p p' q : Parser} {b : ℕ} {rest : Bytes} {r : Parsed Real} {cs : List (Capture Real)}
        {n : ℕ}
        → parse p (b ∷ rest) ≡ (p', r)
        → 0 < r.consumed
        → Run p' (drop r.consumed (b ∷ rest)) q cs n
        → Run p (b ∷ rest) q (r.captures ++ cs) (r.count + n)

  on_values-append :
      (a : App) (xs ys : List (Capture Real))
      → on_values real_text a (xs ++ ys) ≡ on_values real_text (on_values real_text a xs) ys
  unfolding on_values
  on_values-append a [] ys = refl
  on_values-append a (x ∷ xs) ys = on_values-append (on_value real_text a x) xs ys

  -- That the loop ends in a run, for a run.
  abbrev pub Gives : Parser × App × ℕ → Parser → App → ℕ → Bytes → Type 0
  Gives r p a objects rest =
      (q : Parser) × (cs : List (Capture Real)) × (n : ℕ) × Run p rest q cs n
      × (r ≡ (q, on_values real_text a cs, objects + n))

  -- The values and the count of a first call and of the calls after it, taken together.
  regroup :
      (q : Parser) (a : App) (xs ys : List (Capture Real)) (k m n : ℕ)
      → ◌≡◌ {A = Parser × App × ℕ}
          (q, on_values real_text (on_values real_text a xs) ys, k + m + n)
          (q, on_values real_text a (xs ++ ys), k + (m + n))
  regroup q a xs ys k m n =
      let sum : k + m + n ≡ k + (m + n) = omega arith in
      λ i. (q, sym (on_values-append a xs ys) i, sum i)

  -- With at least as much fuel as there are bytes, the loop is a run to the end: the parser was called
  -- on what was left until nothing was, or until a call consumed nothing, and the values of all the
  -- calls went to `on_value` in order, their counts added up.
  pub parse_from-Run :
      (fuel : ℕ) (p : Parser) (a : App) (objects : ℕ) (rest : Bytes)
      → length rest ≤ fuel
      → Gives (parse_from real_text parse fuel p a objects rest) p a objects rest
  unfolding parse_from on_values
  parse_from-Run fuel p a objects [] h = (p, [], 0, ended, ap (λ (m : ℕ). (p, a, m)) (omega arith))
  parse_from-Run zero p a objects (b ∷ rest) h = absurd (omega arith)
  parse_from-Run (suc fuel) p a objects (b ∷ rest) h =
      let (p', r) = parse p (b ∷ rest) in
      let left = drop r.consumed (b ∷ rest) in
      let shorter = length-drop r.consumed (b ∷ rest) in
      elim (Bool-cases (r.consumed == 0)) [
        | inl e ↦ (p', r.captures, r.count, stuck refl (ground arith), rw e)
        | inr e ↦
            let (q, cs, n, run, same) =
              parse_from-Run fuel p' (on_values real_text a r.captures) (objects + r.count) left
                (ground arith) in
            (
              q,
              r.captures ++ cs,
              r.count + n,
              more refl (ground arith) run,
              rw e (same ∙ regroup q a r.captures cs objects r.count n),
            )
      ]

  -- A run is what the loop computes, whatever fuel it has, from the length of the buffer up.
  pub Run-parse_from :
      (fuel : ℕ) (a : App) (objects : ℕ) {p q : Parser} {rest : Bytes} {cs : List (Capture Real)}
      {n : ℕ}
      → Run p rest q cs n
      → length rest ≤ fuel
      → parse_from real_text parse fuel p a objects rest
        ≡ (q, on_values real_text a cs, objects + n)
  unfolding parse_from on_values
  Run-parse_from fuel a objects {p} ended h = ap (λ (m : ℕ). (p, a, m)) (omega arith)
  Run-parse_from zero a objects (stuck e z) h = absurd (omega arith)
  Run-parse_from zero a objects (more e z run) h = absurd (omega arith)
  Run-parse_from (suc fuel) a objects (stuck {p = p} {q = q} {b = b} {rest = rest} {r = r} e z) h =
      rw (e, parse_from, z) refl
  Run-parse_from (suc fuel) a objects
        (more {p = p} {p' = p'} {q = q} {b = b} {rest = rest} {r = r} {cs = cs} {n = n} e z run) h =
      let go : r.consumed == 0 ≡ false = ground arith in
      let short = length-drop r.consumed (b ∷ rest) in
      let later =
        Run-parse_from fuel (on_values real_text a r.captures) (objects + r.count) run
          (ground arith) in
      rw (e, parse_from, go) (later ∙ regroup q a r.captures cs objects r.count n)
