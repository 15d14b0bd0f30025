-- ===== src/CycleSet/Refinement.antt =====
-- main/aggregator.h: the operations of the class, against the list of first readings.
use gplug_mini.Base.{
  ℕ, suc, ◌+◌, ◌-◌, ◌<◌, true, false, List, [], ◌∷◌, ◌++◌, Bytes, codes, ◌≡◌, refl, ap, sym, ◌∙◌,
  arith, length, length-append, All, All-append, append_assoc, append-nil, take_all,
  strncmp_eq-str_eq, snprintf, ◌==◌,
}
use gplug_mini.CycleSet.{
  CycleSet, append, key, claimed, stored, claim, add_text, json_size, max_values, max_label,
}
use gplug_mini.CycleSet.Message.{Reading, labels_of, member, members, body, has}

pub append-fits :
    (c : CycleSet) (s : Bytes)
    → c.len ≡ length c.json
    → 0 < length s
    → c.len + length s < json_size
    → append c s ≡ record c { json = c.json ++ s; len = length (c.json ++ s) }
unfolding append snprintf
append-fits c s e h k = ground (
  arith,
  take_all c.len c.json (omega arith),
  take_all (json_size - c.len - 1) s (omega arith),
  length-append c.json s,
)

-- What a reading puts in front of its own member.
abbrev lead_after : Bytes → List Reading → Bytes
lead_after lead [] = lead
lead_after lead (_ ∷ _) = codes ","

members-snoc :
    (lead : Bytes) (rs : List Reading) (l v : Bytes)
    → members lead (rs ++ (l, v) ∷ []) ≡ members lead rs ++ (lead_after lead rs ++ member l v)
unfolding members
members-snoc lead [] l v = simp append-nil
members-snoc lead ((k, w) ∷ []) l v = simp (append-nil, append_assoc)
members-snoc lead ((k, w) ∷ r ∷ rs) l v =
    simp append_assoc (simp (members-snoc (codes ",") (r ∷ rs) l v, append_assoc))

-- The open buffer of the class holds the readings `rs`.
pub record Holds (c : CycleSet) (rs : List Reading) : Type 0 where
  pub json_is : c.json ≡ body rs
  pub labels_is : c.labels ≡ labels_of rs
  pub len_is : c.len ≡ length (body rs)
  pub open_is : c.closed ≡ false
  pub short : All (λ l. length l < max_label) (labels_of rs)

claimed-has :
    (l : Bytes) (ls : List Bytes) → All (λ x. length x < max_label) ls → claimed l ls ≡ has l ls
unfolding claimed has
claimed-has l [] h = refl
claimed-has l (x ∷ ls) h = rw (strncmp_eq-str_eq max_label x l h.0, claimed-has l ls h.1)

stored-short : (l : Bytes) → length l < max_label → stored l ≡ l
stored-short l h = ground (arith, take_all (length l) l (omega arith))

key-lead :
    (rs : List Reading) (l v : Bytes)
    → key (length (body rs)) l ++ v ≡ lead_after (codes "{") rs ++ member l v
unfolding members member
key-lead [] l v = simp append_assoc
key-lead ((a, b) ∷ rs) l v =
    let full : (length (body ((a, b) ∷ rs)) == 0) ≡ false = ground arith in
    rw full (simp append_assoc)

pub body-snoc :
    (rs : List Reading) (l v : Bytes)
    → body (rs ++ (l, v) ∷ []) ≡ (body rs ++ key (length (body rs)) l) ++ v
body-snoc rs l v =
    members-snoc (codes "{") rs l v
    ∙ ap (◌++◌ (body rs)) (sym (key-lead rs l v))
    ∙ sym (append_assoc (body rs) (key (length (body rs)) l) v)

pub key-pos : (n : ℕ) (l : Bytes) → 0 < length (key n l)
key-pos n l = ground arith

pub labels-snoc :
    (rs : List Reading) (l v : Bytes) → labels_of (rs ++ (l, v) ∷ []) ≡ labels_of rs ++ l ∷ []
labels-snoc [] l v = refl
labels-snoc (r ∷ rs) l v = ap (◌∷◌ r.0) (labels-snoc rs l v)

pub length-labels : (rs : List Reading) → length (labels_of rs) ≡ length rs
length-labels [] = refl
length-labels (r ∷ rs) = ap suc (length-labels rs)

module _ {c : CycleSet} {rs : List Reading} (l v : Bytes) (h : Holds c rs) where
  -- A register that is there already is refused, and nothing changes.
  pub add_text-has : has l (labels_of rs) ≡ true → add_text c l v ≡ (c, false)
  unfolding add_text claim
  add_text-has e = ground (arith, claimed-has l (labels_of rs) h.short, ap (claimed l) h.labels_is)

  pub claim-new :
      has l (labels_of rs) ≡ false
      → length rs < max_values
      → claim c l ≡ (record (append c (key c.len l)) { labels = c.labels ++ stored l ∷ [] }, true)
  unfolding claim
  claim-new e n = ground (
    arith,
    claimed-has l (labels_of rs) h.short,
    ap (claimed l) h.labels_is,
    ap length h.labels_is,
    length-labels rs,
  )

  text-new : c.json ++ key c.len l ++ v ≡ body (rs ++ (l, v) ∷ [])
  text-new = rw (h.json_is, h.len_is) (sym (body-snoc rs l v))

  written :
      (ls : List Bytes)
      → 0 < length v
      → length (body (rs ++ (l, v) ∷ [])) < json_size
      → append (record (append c (key c.len l)) { labels = ls }) v ≡ record c {
        json = body (rs ++ (l, v) ∷ []);
        len = length (body (rs ++ (l, v) ∷ []));
        labels = ls;
      }
  written ls p fit =
      let size : length (c.json ++ key c.len l ++ v) < json_size = rw text-new fit in
      let outer = length-append (c.json ++ key c.len l) v in
      let inner = length-append c.json (key c.len l) in
      let at_end : c.len ≡ length c.json = h.len_is ∙ ap length (sym h.json_is) in
      rw (append-fits c (key c.len l) at_end (key-pos c.len l) (omega arith)) (
        append-fits
          (record c {
            json = c.json ++ key c.len l;
            len = length (c.json ++ key c.len l);
            labels = ls;
          })
          v refl p (omega arith)
        ∙ ap (λ (t : Bytes). record c { json = t; len = length t; labels = ls }) text-new)

  -- A register that is new is taken, if its member fits.
  pub add_text-new :
      has l (labels_of rs) ≡ false
      → length rs < max_values
      → length l < max_label
      → 0 < length v
      → length (body (rs ++ (l, v) ∷ [])) < json_size
      → ((add_text c l v).1 ≡ true) × Holds (add_text c l v).0 (rs ++ (l, v) ∷ [])
  unfolding add_text
  add_text-new e n k p fit =
      rw (claim-new e n, add_text, written _ p fit)
        (
          refl,
          record {
            json_is = refl;
            labels_is = rw (h.labels_is, stored-short l k) (sym (labels-snoc rs l v));
            len_is = refl;
            open_is = h.open_is;
            short = rw (labels-snoc rs l v) (All-append _ (labels_of rs) (l ∷ []) h.short (k, tt));
          },
        )
