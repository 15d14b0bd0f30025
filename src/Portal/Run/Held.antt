-- ===== src/Portal/Run/Held.antt =====
-- main/provisioning.cpp: what the submissions of a run leave in the portal's variables and the flash.
use gplug_mini.Base.{
  ℕ, suc, ◌≡◌, ◌≢◌, refl, sym, ap, ◌∙◌, true, ◌||◌, List, [], ◌∷◌, ◌++◌, Option, none, some, Bytes,
  leb, Bool-cases, Option-cases, inl, inr, All, arith, length, length-append, take, min,
}
use gplug_mini.Config.{no_fault}
use gplug_mini.Config.Store.{Nvs, NvsLaws, config_load}
use gplug_mini.Portal.{Answer, failed, bad_request, server_error, saved, Portal, save_post, receive}
use gplug_mini.Portal.Run.Saved.{
  later, is_saved, last_saved, last_saved-append, IsFilled, read_form-IsFilled, posts_of,
}
use gplug_mini.Portal.Submit.{save_post_persists, save_post_refused}
use gplug_mini.Portal.Run.{Turn, Post, save_posts, wait}

-- No submission met a flash that could not be written.
abbrev pub IsWritten : List Answer → Type 0
IsWritten = All (λ a. a ≢ server_error)

pub some-injective : {A : Type 0} → {x y : A} → some x ≡ some y → x ≡ y
some-injective {x = x} e = ap (λ o. elim o [ none ↦ x | some y ↦ y ]) e

pub IsWritten-left : (xs ys : List Answer) → IsWritten (xs ++ ys) → IsWritten xs
IsWritten-left [] ys h = tt
IsWritten-left (x ∷ xs) ys h = (h.0, IsWritten-left xs ys h.1)

pub IsWritten-right : (xs ys : List Answer) → IsWritten (xs ++ ys) → IsWritten ys
IsWritten-right [] ys h = h
IsWritten-right (x ∷ xs) ys h = IsWritten-right xs ys h.1

module _ (nvs : Nvs) where
  -- The last submission that was saved is the configuration in the portal's variables, which is
  -- also what the flash holds.
  pub record IsKept (xs : List Post) (answers : List Answer) (q : Portal nvs) : Type 0 where
    pub post : Post
    pub body : Bytes
    pub last : last_saved xs answers ≡ some post
    pub received : receive (min post.0 511) [] post.1 ≡ some body
    pub filled : IsFilled body q.staged
    pub load : config_load nvs q.flash ≡ (q.staged, no_fault)

  -- Nothing happened to the portal's variables and the flash, or a configuration was stored.
  pub data Held (xs : List Post) (answers : List Answer) (p q : Portal nvs) : Type 0 where
    untouched : q ≡ p → last_saved xs answers ≡ none → Held xs answers p q
    stored : IsKept xs answers q → q.submitted ≡ true → Held xs answers p q

  pub Held-trans :
      (xs ys : List Post) (answers more : List Answer) (p q r : Portal nvs)
      → length xs ≡ length answers
      → Held xs answers p q
      → Held ys more q r
      → Held (xs ++ ys) (answers ++ more) p r
  unfolding later
  Held-trans xs ys answers more p q r n h (stored k s) =
      let last = last_saved-append xs ys answers more n ∙ rw (k.last) refl in
      stored
        (record {
          post = k.post;
          body = k.body;
          last = last;
          received = k.received;
          filled = k.filled;
          load = k.load;
        })
        s
  Held-trans xs ys answers more p q r n (untouched e l) (untouched f m) =
      untouched (f ∙ e) (last_saved-append xs ys answers more n ∙ rw (l, m) refl)
  Held-trans xs ys answers more p q r n (stored k s) (untouched f m) =
      stored
        (record {
          post = k.post;
          body = k.body;
          last = last_saved-append xs ys answers more n ∙ rw m (k.last);
          received = k.received;
          filled = rw f (k.filled);
          load = rw f (k.load);
        })
        (rw f s)

  pub length-save_posts :
      (xs : List Post) (p : Portal nvs) → length xs ≡ length (save_posts nvs xs p).1
  unfolding save_posts
  length-save_posts [] p = refl
  length-save_posts ((len, chunks) ∷ xs) p =
      omega (arith, length-save_posts xs (save_post nvs len chunks p).0)

  module _ (laws : NvsLaws nvs) where
    post-Held :
        (len : ℕ) (chunks : List (Option Bytes)) (p q : Portal nvs) (a : Answer)
        → save_post nvs len chunks p ≡ (q, a)
        → a ≢ server_error
        → Held ((len, chunks) ∷ []) (a ∷ []) p q
    unfolding last_saved is_saved later
    post-Held len chunks p q failed e h =
        let same =
          save_post_refused nvs len chunks p [] (inl (ap (λ (r : Portal nvs × Answer). r.1) e)) in
        untouched (sym (ap (λ (r : Portal nvs × Answer). r.0) e) ∙ same) refl
    post-Held len chunks p q (bad_request text) e h =
        let same =
          save_post_refused nvs len chunks p text (inr (ap (λ (r : Portal nvs × Answer). r.1) e)) in
        untouched (sym (ap (λ (r : Portal nvs × Answer). r.0) e) ∙ same) refl
    post-Held len chunks p q server_error e h = absurd (h refl)
    post-Held len chunks p q saved e h =
        let (load, done, (body, received, read)) = save_post_persists nvs laws len chunks p q e in
        stored
          (record {
            post = (len, chunks);
            body = body;
            last = refl;
            received = received;
            filled = read_form-IsFilled body q.staged read;
            load = load;
          })
          done

    pub posts-Held :
        (posts : List Post) (p : Portal nvs)
        → IsWritten (save_posts nvs posts p).1
        → Held posts (save_posts nvs posts p).1 p (save_posts nvs posts p).0
    unfolding save_posts last_saved
    posts-Held [] p h = untouched refl refl
    posts-Held ((len, chunks) ∷ posts) p h =
        let one = save_post nvs len chunks p in
        let rest = save_posts nvs posts one.0 in
        Held-trans ((len, chunks) ∷ []) posts (one.1 ∷ []) rest.1 p one.0 rest.0 refl
          (post-Held len chunks p one.0 one.1 refl h.0) (posts-Held posts one.0 h.1)

    -- The loop handled the submissions of some of the turns, all those before it ended.
    unfoldable pub Waited : List Turn → Portal nvs → Portal nvs → List Answer → Type 0
    Waited ts p q answers =
        (n : ℕ) × (length (posts_of (take n ts)) ≡ length answers)
        × Held (posts_of (take n ts)) answers p q

    pub wait-Held :
        (deadline : ℕ) (ts : List Turn) (p q : Portal nvs) (answers : List Answer)
        → wait nvs deadline ts p ≡ some (q, answers)
        → IsWritten answers
        → Waited ts p q answers
    unfolding wait Waited posts_of last_saved
    wait-Held deadline [] p q answers e h = cc
    wait-Held deadline (t ∷ ts) p q answers e h =
        let one = save_posts nvs t.posts p in
        elim (Bool-cases (p.submitted || leb deadline t.checked)) [
          | inl over ↦
              let same : some (p, []) ≡ some (q, answers) = rw (over, wait) at e in
              let pair = some-injective same in
              rw (sym (ap (λ r. r.1) pair)) (0, refl, untouched (sym (ap (λ r. r.0) pair)) refl)
          | inr going ↦ elim (Option-cases (wait nvs deadline ts one.0)) [
            | inl f ↦ let never : none ≡ some (q, answers) = rw (going, wait, f) at e in cc never
            | inr ((r, more), f) ↦
                let same : some (r, one.1 ++ more) ≡ some (q, answers) = rw (going, wait, f) at e in
                let pair = some-injective same in
                let written : IsWritten (one.1 ++ more) = rw (ap (λ r. r.1) pair) h in
                let (n, size, later_) =
                  wait-Held deadline ts one.0 r more f (IsWritten-right one.1 more written) in
                let first = posts-Held t.posts p (IsWritten-left one.1 more written) in
                let xs = posts_of (take n ts) in
                let sizes = length-append t.posts xs in
                let counted = length-append one.1 more in
                let mine = length-save_posts t.posts p in
                rw (sym (ap (λ r. r.0) pair), sym (ap (λ r. r.1) pair))
                  (
                    suc n,
                    omega (arith, sizes, counted, mine, size),
                    Held-trans t.posts xs one.1 more p one.0 r mine first later_,
                  )
          ]
        ]
