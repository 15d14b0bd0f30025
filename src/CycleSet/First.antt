-- ===== src/CycleSet/First.antt =====
-- main/aggregator.h: what the message of a cycle says of one register.
use gplug_mini.Base.{
  true, false, ◌||◌, List, [], ◌∷◌, ◌++◌, Option, none, some, Bytes, ◌≡◌, refl, sym, ap, subst, ◌∙◌,
  arith, str_eq, str_eq_iff, Bool-cases, inl, inr,
}
use gplug_mini.CycleSet.Cycle.{keep-has, keep-new}
use gplug_mini.CycleSet.Refinement.{labels-snoc}
use gplug_mini.CycleSet.Message.{Reading, labels_of, has, keep, find}

or_else {ℓ} : {A : Type ℓ} → Option A → Option A → Option A
or_else none b = b
or_else (some a) b = some a

or_else-none {ℓ} : {A : Type ℓ} (a : Option A) → a ≡ or_else a none
unfolding or_else
or_else-none none = refl
or_else-none (some a) = refl

or_else_assoc {ℓ} :
    {A : Type ℓ} (a b c : Option A) → or_else (or_else a b) c ≡ or_else a (or_else b c)
unfolding or_else
or_else_assoc none b c = refl
or_else_assoc (some a) b c = refl

find-append :
    (k : Bytes) (rs ss : List Reading) → find k (rs ++ ss) ≡ or_else (find k rs) (find k ss)
unfolding find or_else
find-append k [] ss = refl
find-append k ((l, v) ∷ rs) ss = ground (arith, find-append k rs ss)

find-has :
    (k : Bytes) (rs ss : List Reading)
    → has k (labels_of rs) ≡ true
    → or_else (find k rs) (find k ss) ≡ find k rs
unfolding find has or_else
find-has k [] ss h = cc
find-has k ((l, v) ∷ rs) ss h = ground (arith, find-has k rs ss)

-- A later reading of a register that is kept makes no difference.
find_known :
    (k : Bytes) (kept : List Reading) (l v : Bytes) (rs : List Reading)
    → has l (labels_of kept) ≡ true
    → or_else (find k kept) (find k ((l, v) ∷ rs)) ≡ or_else (find k kept) (find k rs)
find_known k kept l v rs e = elim (Bool-cases (str_eq l k)) [
  | inl q ↦
      let p = subst (λ x. has x (labels_of kept) ≡ true) ((str_eq_iff l k).0 q) e in
      find-has k kept _ p ∙ sym (find-has k kept rs p)
  | inr q ↦ ap (or_else (find k kept)) (unfold find in rw q)
]

find-keep :
    (k : Bytes) (kept rs : List Reading) → find k (keep kept rs) ≡ or_else (find k kept) (find k rs)
find-keep k kept [] = unfold keep find or_else in or_else-none (find k kept)
find-keep k kept ((l, v) ∷ rs) = elim (Bool-cases (has l (labels_of kept))) [
  | inl e ↦ rw (keep-has kept l v rs e) (find-keep k kept rs ∙ sym (find_known k kept l v rs e))
  | inr e ↦
      rw
        (
          keep-new kept l v rs e,
          find-keep k (kept ++ (l, v) ∷ []) rs,
          find-append k kept ((l, v) ∷ []),
        )
        (or_else_assoc (find k kept) _ _ ∙ ap (or_else (find k kept)) one)
]
  where
    one : or_else (find k ((l, v) ∷ [])) (find k rs) ≡ find k ((l, v) ∷ rs)
    one = unfold find or_else in ground arith

-- No two of the labels are the same.
abbrev pub Distinct : List Bytes → Type 0
Distinct [] = Unit
Distinct (x ∷ xs) = (has x xs ≡ false) × Distinct xs

has-snoc : (x l : Bytes) (xs : List Bytes) → has x (xs ++ l ∷ []) ≡ (has x xs || str_eq l x)
unfolding has
has-snoc x l [] = ground arith
has-snoc x l (y ∷ ys) = ground (arith, has-snoc x l ys)

Distinct-snoc :
    (l : Bytes) (xs : List Bytes) → has l xs ≡ false → Distinct xs → Distinct (xs ++ l ∷ [])
unfolding has
Distinct-snoc l [] h d = (refl, tt)
Distinct-snoc l (x ∷ xs) h d = (
  ground (arith, has-snoc x l xs, str_eq_iff x l, str_eq_iff l x),
  Distinct-snoc l xs (ground arith) d.1,
)

keep-Distinct :
    (kept rs : List Reading) → Distinct (labels_of kept) → Distinct (labels_of (keep kept rs))
keep-Distinct kept [] d = unfold keep in d
keep-Distinct kept ((l, v) ∷ rs) d = elim (Bool-cases (has l (labels_of kept))) [
  | inl e ↦ rw (keep-has kept l v rs e) (keep-Distinct kept rs d)
  | inr e ↦ rw (keep-new kept l v rs e) (
      keep-Distinct (kept ++ (l, v) ∷ []) rs
        (rw (labels-snoc kept l v) (Distinct-snoc l (labels_of kept) e d)))
]

-- The readings of the message have distinct labels, and under each label stands the first value
-- that the cycle gave it; a register that the cycle did not give is not there.
pub keep_first :
    (rs : List Reading)
    → Distinct (labels_of (keep [] rs)) × ((k : Bytes) → find k (keep [] rs) ≡ find k rs)
unfolding find or_else
keep_first rs = (keep-Distinct [] rs tt, λ k. find-keep k [] rs)
