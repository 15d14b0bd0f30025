-- ===== src/CycleSet/Room.antt =====
-- main/aggregator.h: how long a cycle's message can become, for registers of a given list.
use gplug_mini.Base.{
  ℕ, suc, ◌+◌, ◌≤◌, ◌≡◌, refl, ap, true, false, List, [], ◌∷◌, ◌++◌, Bytes, codes, arith, str_eq,
  str_eq_iff, if◌then◌else◌, length, length-append, All, All-append, Bool-cases, inl, inr,
}
use gplug_mini.CycleSet.Message.{Reading, labels_of, member, members, body, has, keep}
use gplug_mini.CycleSet.Cycle.{keep-has, keep-new}
use gplug_mini.CycleSet.First.{Distinct, keep_first}

-- The list without the first place at which a label stands.
unfoldable pub without : Bytes → List Bytes → List Bytes
without l [] = []
without l (x ∷ xs) = if str_eq x l then xs else x ∷ without l xs

unfoldable pub total : (Bytes → ℕ) → List Bytes → ℕ
total w [] = 0
total w (x ∷ xs) = w x + total w xs

total-without :
    (w : Bytes → ℕ) (l : Bytes) (ls : List Bytes)
    → has l ls ≡ true
    → (total w ls ≡ w l + total w (without l ls)) × (length ls ≡ suc (length (without l ls)))
unfolding total without has
total-without w l [] h = cc
total-without w l (x ∷ xs) h = elim (Bool-cases (str_eq x l)) [
  | inl e ↦ let same = ap w ((str_eq_iff x l).0 e) in rw e (omega (arith, same), refl)
  | inr e ↦
      let later = total-without w l xs (ground arith) in
      rw e (omega (arith, later.0), omega (arith, later.1))
]

has-without :
    (k l : Bytes) (ls : List Bytes)
    → has k ls ≡ true
    → str_eq k l ≡ false
    → has k (without l ls) ≡ true
unfolding has without
has-without k l [] h n = cc
has-without k l (x ∷ xs) h n =
    ground (arith, has-without k l xs, str_eq_iff x l, str_eq_iff x k, str_eq_iff k l)

module _ (w : Bytes → ℕ) where
  -- A reading of a listed register whose member, with what stands in front of it, is no longer
  -- than its weight.
  pub record IsListed (ls : List Bytes) (r : Reading) : Type 0 where
    pub listed : has r.0 ls ≡ true
    pub weighed : 4 + length r.0 + length r.1 ≤ w r.0

  keep-All :
      (P : Reading → Type 0) (kept rs : List Reading) → All P kept → All P rs → All P (keep kept rs)
  keep-All P kept [] hk hr = unfold keep in hk
  keep-All P kept ((l, v) ∷ rs) hk hr = elim (Bool-cases (has l (labels_of kept))) [
    | inl e ↦ rw (keep-has kept l v rs e) (keep-All P kept rs hk hr.1)
    | inr e ↦
        rw (keep-new kept l v rs e)
          (keep-All P (kept ++ (l, v) ∷ []) rs (All-append P kept ((l, v) ∷ []) hk (hr.0, tt)) hr.1)
  ]

  -- Readings of other registers stay listed when one register is struck off.
  struck :
      (l : Bytes) (ls : List Bytes) (rs : List Reading)
      → has l (labels_of rs) ≡ false
      → All (IsListed ls) rs
      → All (IsListed (without l ls)) rs
  unfolding has
  struck l ls [] n h = tt
  struck l ls (r ∷ rs) n h = (
    record { listed = has-without r.0 l ls h.0.listed (ground arith); weighed = h.0.weighed },
    struck l ls rs (ground arith) h.1,
  )

  members_room :
      (lead : Bytes) (rs : List Reading) (ls : List Bytes)
      → length lead ≡ 1
      → Distinct (labels_of rs)
      → All (IsListed ls) rs
      → (length (members lead rs) ≤ total w ls) × (length rs ≤ length ls)
  unfolding members member
  members_room lead [] ls one d h = (omega arith, omega arith)
  members_room lead ((l, v) ∷ rs) ls one d h =
      let later = members_room (codes ",") rs (without l ls) refl d.1 (struck l ls rs d.0 h.1) in
      let whole = total-without w l ls h.0.listed in
      let here = h.0.weighed in
      let rest = members (codes ",") rs in
      (
        omega (
          arith,
          length-append lead (member l v ++ rest),
          length-append (member l v) rest,
          length-append l (codes "\":" ++ v),
        ),
        omega arith,
      )

  -- If every reading is of a register of a list, and its member is no longer than the register's
  -- weight, then the readings that are kept are no more than the list is long, and their members no
  -- longer together than the weights.
  pub keep_room :
      (ls : List Bytes) (rs : List Reading)
      → All (IsListed ls) rs
      → (length (body (keep [] rs)) ≤ total w ls) × (length (keep [] rs) ≤ length ls)
  keep_room ls rs h =
      members_room (codes "{") (keep [] rs) ls refl (keep_first rs).0
        (keep-All (IsListed ls) [] rs tt h)
