-- ===== src/Portal/Run/Stored.antt =====
-- main/provisioning.cpp: what a run of the portal leaves in the flash.
use gplug_mini.Base.{
  ℕ, ◌+◌, ◌*◌, ◌≡◌, sym, subst, Bool, true, false, not, ◌&&◌, List, ◌++◌, Bool-cases, Option-cases,
  inl, inr, All, arith, length, length-append, take,
}
use gplug_mini.Config.Store.{Nvs, NvsLaws}
use gplug_mini.Net.Setup.{net_stack_init}
use gplug_mini.Portal.{Answer, Portal}
use gplug_mini.Portal.Run.Saved.{is_saved, last_saved-none, posts_of}
use gplug_mini.Portal.Run.{
  Radio, Run, aborted, unfinished, returned, save_posts, wait, finish, access_point,
  provisioning_run, timeout_ms,
}
use gplug_mini.Portal.Run.Held.{
  IsWritten, IsWritten-left, IsWritten-right, IsKept, Held, untouched, stored, Held-trans,
  length-save_posts, posts-Held, Waited, wait-Held,
}

-- What a run comes to: the portal left with nothing saved, and as it was; or with the last
-- submission that was saved, of those that the turns brought until the loop ended and those behind it.
pub data Ended (nvs : Nvs) (r : Radio) (p : Portal nvs) (answers : List Answer)
    : Portal nvs → Bool → Type 0 where
  left : All (λ a. is_saved a ≡ false) answers → Ended nvs r p answers p false
  kept :
      {q : Portal nvs} (n : ℕ)
      → length (posts_of (take n r.turns) ++ r.late) ≡ length answers
      → IsKept nvs (posts_of (take n r.turns) ++ r.late) answers q
      → Ended nvs r p answers q true

module _ (nvs : Nvs) (laws : NvsLaws nvs) where
  Held-Ended :
      (r : Radio) (n : ℕ) (p q : Portal nvs) (answers : List Answer)
      → let xs = posts_of (take n r.turns) ++ r.late in
        length xs ≡ length answers
        → p.submitted ≡ false
        → Held nvs xs answers p q
        → Ended nvs r p answers q q.submitted
  Held-Ended r n p q answers size idle (untouched e none_) =
      let empty = last_saved-none (posts_of (take n r.turns) ++ r.late) answers size none_ in
      rw (e, idle) (left empty)
  Held-Ended r n p q answers size idle (stored k s) =
      subst (Ended nvs r p answers q) (sym s) (kept n size k)

  -- What is to be shown of an outcome.
  Kept : Radio → Portal nvs → Run nvs → Type 0
  Kept r p aborted = Unit
  Kept r p unfinished = Unit
  Kept r p (returned q answers b) = IsWritten answers → Ended nvs r p answers q b

  finish-Kept :
      (r : Radio) (p q : Portal nvs) (answers : List Answer)
      → p.submitted ≡ false
      → (IsWritten answers → Waited nvs laws r.turns p q answers)
      → Kept r p (finish nvs r.late (q, answers))
  unfolding Kept Waited
  finish-Kept r p q answers idle before h =
      let last = save_posts nvs r.late q in
      let (n, size, held) = before (IsWritten-left answers last.1 h) in
      let xs = posts_of (take n r.turns) in
      let sizes = length-append xs r.late in
      let counted = length-append answers last.1 in
      let mine = length-save_posts nvs r.late q in
      Held-Ended r n p last.0 (answers ++ last.1) (omega (arith, sizes, counted, mine, size)) idle (
        Held-trans nvs xs r.late answers last.1 p q last.0 size held
          (posts-Held nvs laws r.late q (IsWritten-right answers last.1 h)))

  run-Kept :
      (r : Radio) (p : Portal nvs) → p.submitted ≡ false → Kept r p (provisioning_run nvs r p)
  unfolding provisioning_run Kept
  run-Kept r p idle = elim (Option-cases (access_point r.mac)) [
    | inl none_ ↦ rw (none_, provisioning_run) (λ h. left tt)
    | inr (ap_, some_) ↦
        elim (Bool-cases (not (net_stack_init r.netif r.event_loop && r.drivers))) [
          | inl bad ↦ rw (some_, provisioning_run, bad) tt
          | inr good ↦ elim (Bool-cases (not r.http)) [
            | inl bad ↦ rw (some_, provisioning_run, good, bad) (λ h. left tt)
            | inr up ↦ elim (Option-cases (wait nvs (r.begun + timeout_ms * 1000) r.turns p)) [
              | inl more ↦ rw (some_, provisioning_run, good, up, more) tt
              | inr ((q, answers), over) ↦
                  rw (some_, provisioning_run, good, up, over)
                    (finish-Kept r p q answers idle (λ h.
                      wait-Held nvs laws (r.begun + timeout_ms * 1000) r.turns p q answers over h))
            ]
          ]
        ]
  ]

  -- In an NVS that keeps its laws, a run of the portal that was not told to end before, and in which
  -- the flash took every write, ends in one of two ways: it returns `false`, no submission was
  -- answered by "Saved", and the flash and the variables are as they were; or it returns `true`, and
  -- the configuration in the variables, which is also the one that the flash holds and a restart
  -- loads, has the fields `ssid`, `pass`, `broker` and `host` of the last submission that was answered
  -- by "Saved". So it is whenever submissions arrive, however many, those between the deadline and the
  -- stop of the server included.
  pub provisioning_run-Ended :
      (r : Radio) (p q : Portal nvs) (answers : List Answer) (b : Bool)
      → p.submitted ≡ false
      → provisioning_run nvs r p ≡ returned q answers b
      → IsWritten answers
      → Ended nvs r p answers q b
  unfolding Kept
  provisioning_run-Ended r p q answers b idle e h =
      let good : Kept r p (returned q answers b) = subst (Kept r p) e (run-Kept r p idle) in good h
