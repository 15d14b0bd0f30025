-- ===== src/App/Line.antt =====
-- When `app_main` doubts the settings of the serial line.
use gplug_mini.Base.{
  ℕ, ◌+◌, ◌≡◌, ◌≢◌, ◌↔◌, ◌<◌, refl, ap, ◌∙◌, Bool, true, not, ◌&&◌, ◌||◌, List, [], ◌∷◌, ◌++◌,
  Bytes, leb, ◌==◌, arith, Bool-cases, inl, inr,
}
use gplug_mini.Framing.{is_format}
use gplug_mini.App.{App, Effect, framed, judge}

-- A flag with a format byte behind it.
pub record HasFrame (s : Bytes) : Type 0 where
  pub front : Bytes
  pub format : ℕ
  pub back : Bytes
  pub found : s ≡ front ++ 0x7E ∷ format ∷ back
  pub format_is : is_format format ≡ true

or-true : (a : Bool) {b : Bool} → b ≡ true → (a || b) ≡ true
or-true a h = ground arith

HasFrame-framed :
    (front : Bytes) (f : ℕ) (back : Bytes)
    → is_format f ≡ true
    → framed (front ++ 0x7E ∷ f ∷ back) ≡ true
unfolding framed
HasFrame-framed [] f back h = rw h refl
HasFrame-framed (x ∷ []) f back h =
    or-true (x == 0x7E && is_format 0x7E) (HasFrame-framed [] f back h)
HasFrame-framed (x ∷ y ∷ front) f back h =
    or-true (x == 0x7E && is_format y) (HasFrame-framed (y ∷ front) f back h)

framed-HasFrame : (s : Bytes) → framed s ≡ true → HasFrame s
unfolding framed
framed-HasFrame [] h = absurd (ground arith)
framed-HasFrame (x ∷ []) h = absurd (ground arith)
framed-HasFrame (x ∷ y ∷ s) h = elim (Bool-cases (x == 0x7E && is_format y)) [
  | inl e ↦ record {
    front = [];
    format = y;
    back = s;
    found = ap (λ (n : ℕ). n ∷ y ∷ s) (ground arith);
    format_is = ground arith;
  }
  | inr e ↦
      let later = framed-HasFrame (y ∷ s) (ground arith) in
      record {
        front = x ∷ later.front;
        format = later.format;
        back = later.back;
        found = ap (◌∷◌ x) later.found;
        format_is = later.format_is;
      }
]

-- The search finds a pair exactly if one is anywhere in the buffer.
pub framed_iff : (s : Bytes) → (framed s ≡ true) ↔ HasFrame s
framed_iff s = (
  framed-HasFrame s,
  λ h. ap framed h.found ∙ HasFrame-framed h.front h.format h.back h.format_is,
)

-- What is asked of the source, and how the count goes on.
pub data Verdict (a : App) : ℕ → App → List Effect → Type 0 where
  decoded : {n : ℕ} → n ≢ 0 → Verdict a n (record a { undecoded = 0 }) []
  mid_burst : HasFrame a.cycle → Verdict a 0 (record a { undecoded = 0 }) []
  first :
      ¬ HasFrame a.cycle
      → a.undecoded ≡ 0
      → Verdict a 0 (record a { undecoded = a.undecoded + 1 }) []
  second :
      ¬ HasFrame a.cycle
      → 0 < a.undecoded
      → Verdict a 0 (record a { undecoded = 0 }) (Effect.next_line ∷ [])

-- The line settings are changed only at the second cycle in a row of which nothing decoded and in
-- which no framing shows; an object that decodes, or framing, starts the count again.
pub judge-Verdict :
    (a : App) (objects : ℕ) → Verdict a objects (judge a objects).0 (judge a objects).1
unfolding judge
judge-Verdict a objects = elim (Bool-cases (not (objects == 0))) [
  | inl e ↦ rw (e, judge) (decoded (ground arith))
  | inr e ↦
      let zero : objects ≡ 0 = ground arith in
      elim (Bool-cases (framed a.cycle)) [
        | inl f ↦ rw (zero, f, judge) (mid_burst ((framed_iff a.cycle).0 f))
        | inr f ↦
            let bare : ¬ HasFrame a.cycle =
              λ h. absurd (ground (arith, (framed_iff a.cycle).1 h)) in
            elim (Bool-cases (leb 2 (a.undecoded + 1))) [
              | inl g ↦ rw (zero, f, g, judge) (second bare (ground arith))
              | inr g ↦
                  let none : a.undecoded ≡ 0 = ground arith in
                  rw (zero, f, g, judge) (first bare none)
            ]
      ]
]
