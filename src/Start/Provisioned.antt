-- ===== src/Start/Provisioned.antt =====
-- main/app_main.cpp: when the portal is raised, and the start that follows it.
use gplug_mini.Base.{
  ◌≡◌, ◌≢◌, ◌↔◌, refl, sym, ap, ◌∙◌, arith, Bool, true, false, not, ◌&&◌, List, [], ◌∷◌, ◌++◌, some,
  take_all, ℕ, take, length, Bool-cases, inl, inr,
}
use gplug_mini.Config.{Config, ConfigFault, no_fault, config_fault, config_usable, is_none}
use gplug_mini.Config.Usable.{config_usable_iff}
use gplug_mini.Config.Store.{
  Nvs, NvsLaws, nvs_ok, config_storage_init, config_load, config_effective, fallback,
}
use gplug_mini.Net.Setup.{net_stack_init, station}
use gplug_mini.Portal.{Answer, Portal}
use gplug_mini.Portal.Run.{Radio, returned, provisioning_run}
use gplug_mini.Portal.Run.Saved.{posts_of}
use gplug_mini.Portal.Run.Held.{IsWritten, IsKept}
use gplug_mini.Portal.Run.Stored.{Ended, left, kept, provisioning_run-Ended}
use gplug_mini.Start.{
  World, joining_of, Act, looping, restarting, join, portal_up, fresh, prologue, online, start_with,
  start_up,
}

-- Whether the portal is among the acts.
unfoldable pub raises : List Act → Bool
raises [] = false
raises (portal_up ∷ acts) = true
raises (_ ∷ acts) = raises acts

usable-no_fault : (c : Config) → config_fault c ≡ no_fault → config_usable c ≡ true
unfolding config_usable
usable-no_fault c h = rw (h, config_usable) refl

is_none_iff : (f : ConfigFault) → (is_none f ≡ true) ↔ (f ≡ no_fault)
is_none_iff f = ground arith

module _ (nvs : Nvs) where
  load-usable :
      (flash : nvs.Flash)
      → (config_load nvs flash).1 ≡ no_fault
      → config_usable (config_load nvs flash).0 ≡ true
  unfolding config_load
  load-usable flash h = elim (Bool-cases (nvs.open_read flash)) [
    | inl e ↦ rw (e, config_load) (usable-no_fault _ (rw (e, config_load) at h))
    | inr e ↦ let never = rw (e, config_load) at h in cc never
  ]

  -- A start whose storage is ready and was not erased.
  pub start_up_ready :
      (w : World nvs) (flash : nvs.Flash)
      → config_storage_init w.first w.erasable w.second ≡ some (nvs_ok, false)
      → start_up nvs w flash
        ≡ start_with nvs w flash (config_effective nvs w.ssid w.passphrase w.uri flash)
  unfolding start_up
  start_up_ready w flash h = rw (h, start_up) refl

  pub raises-start_with :
      (w : World nvs) (flash : nvs.Flash) (c : Config)
      → raises (start_with nvs w flash c).1 ≡ not (config_usable c)
  unfolding raises start_with
  raises-start_with w flash c = elim (Bool-cases (config_usable c)) [
    | inr bad ↦ rw (bad, start_with) refl
    | inl good ↦ elim (Bool-cases (not (net_stack_init w.netif w.event_loop && w.drivers))) [
      | inl stack ↦ rw (good, start_with, stack) refl
      | inr stack ↦ elim (Bool-cases (joining_of w).1) [
        | inr nowhere ↦ rw (good, start_with, stack, nowhere) refl
        | inl there ↦ elim (Bool-cases w.client) [
          | inr bad ↦ rw (good, start_with, stack, there, bad) refl
          | inl up ↦ rw (good, start_with, stack, there, up) refl
        ]
      ]
    ]
  ]

  -- If the storage is ready and was not erased, the portal is raised exactly if neither the flash holds a usable
  -- configuration nor the build has one; whatever becomes of the network.
  pub start_up-raises :
      (w : World nvs) (flash : nvs.Flash)
      → config_storage_init w.first w.erasable w.second ≡ some (nvs_ok, false)
      → (raises (start_up nvs w flash).1 ≡ true)
        ↔ ((config_load nvs flash).1 ≢ no_fault)
          × (config_usable (fallback nvs w.ssid w.passphrase w.uri) ≡ false)
  unfolding config_effective
  start_up-raises w flash h =
      let load = config_load nvs flash in
      let same = start_up_ready w flash h in
      let conf = config_effective nvs w.ssid w.passphrase w.uri flash in
      let raised = raises-start_with w flash conf in
      elim (Bool-cases (is_none load.1)) [
        | inl fine ↦
            let none_ = (is_none_iff load.1).0 fine in
            let used : conf ≡ load.0 = rw (fine, config_effective) refl in
            let usable : config_usable conf ≡ true = rw used (load-usable flash none_) in
            (λ r. absurd (ground (arith, (rw same at r), raised, usable)), λ n. absurd (n.0 none_))
        | inr fault ↦
            let used : conf ≡ fallback nvs w.ssid w.passphrase w.uri =
              rw (fault, config_effective) refl in
            let what : raises (start_up nvs w flash).1
                ≡ not (config_usable (fallback nvs w.ssid w.passphrase w.uri)) =
              rw same (raised ∙ ap (λ c. not (config_usable c)) used) in
            (
              λ r. (
                (λ n. absurd (ground (arith, fault, (is_none_iff load.1).1 n))),
                ground (arith, what, r),
              ),
              λ n. ground (arith, what, n.1),
            )
      ]

-- The restart behind a portal that stored `q.staged`, the submission that this came from, and the
-- start that follows.
pub record Joins (nvs : Nvs) (w v : World nvs) (flash : nvs.Flash) (q : Portal nvs)
    (answers : List Answer) : Type 0 where
  pub turns : ℕ
  pub answered : length (posts_of (take turns w.radio.turns) ++ w.radio.late) ≡ length answers
  pub submission : IsKept nvs (posts_of (take turns w.radio.turns) ++ w.radio.late) answers q
  pub restarts : (start_up nvs w flash).0 ≡ restarting q.flash
  pub loops :
      start_up nvs v q.flash
      ≡ (looping, prologue nvs v ++ (join (station q.staged) ∷ online nvs v q.staged))
  pub ssid_whole : (station q.staged).ssid ≡ q.staged.ssid
  pub password_whole : (station q.staged).password ≡ q.staged.passphrase

module _ (nvs : Nvs) (laws : NvsLaws nvs) where
  start_stored :
      (v : World nvs) (q : Portal nvs)
      → config_storage_init v.first v.erasable v.second ≡ some (nvs_ok, false)
      → config_load nvs q.flash ≡ (q.staged, no_fault)
      → (net_stack_init v.netif v.event_loop && v.drivers) ≡ true
      → (joining_of v).1 ≡ true
      → v.client ≡ true
      → start_up nvs v q.flash
        ≡ (looping, prologue nvs v ++ (join (station q.staged) ∷ online nvs v q.staged))
  unfolding start_with config_effective
  start_stored v q ready load stack there up =
      let used : config_effective nvs v.ssid v.passphrase v.uri q.flash ≡ q.staged =
        rw (load, config_effective) refl in
      let fine = load-usable nvs q.flash (ap (λ r. r.1) load) in
      let usable : config_usable q.staged ≡ true =
        rw (sym (ap (λ (r : Config × ConfigFault). r.0) load)) fine in
      start_up_ready nvs v q.flash ready ∙ rw (used, usable, start_with, stack, there, up) refl

  -- The submission that a run with a submission has stored.
  Submitted : Radio → List Answer → Portal nvs → Type 0
  Submitted r answers q =
      (n : ℕ) × (length (posts_of (take n r.turns) ++ r.late) ≡ length answers)
      × IsKept nvs (posts_of (take n r.turns) ++ r.late) answers q

  ended-Submitted :
      (r : Radio) (p q : Portal nvs) (answers : List Answer) (b : Bool)
      → b ≡ true
      → Ended nvs r p answers q b
      → Submitted r answers q
  unfolding Submitted
  ended-Submitted r p q answers _ h (left empty) = cc h
  ended-Submitted r p q answers _ h (kept n size k) = (n, size, k)

  -- A start that finds no usable configuration, and whose portal ends with a submission in an NVS
  -- that keeps its laws and took every write, ends in a restart; and the next start, whatever the
  -- build's defaults, raises no portal, joins a network whose name and passphrase are, whole, the
  -- fields `ssid` and `pass` of the last submission that the portal answered by "Saved", sets the
  -- client up with the configuration that this submission made and enters the main loop; if the
  -- storage is ready at both starts and was not erased, and at the second the stack, the drivers and
  -- the client are well and the network gives an address.
  pub portal_then_join :
      (w v : World nvs) (flash : nvs.Flash) (q : Portal nvs) (answers : List Answer)
      → config_storage_init w.first w.erasable w.second ≡ some (nvs_ok, false)
      → config_usable (config_effective nvs w.ssid w.passphrase w.uri flash) ≡ false
      → provisioning_run nvs w.radio (fresh nvs flash) ≡ returned q answers true
      → IsWritten answers
      → config_storage_init v.first v.erasable v.second ≡ some (nvs_ok, false)
      → (net_stack_init v.netif v.event_loop && v.drivers) ≡ true
      → (joining_of v).1 ≡ true
      → v.client ≡ true
      → Joins nvs w v flash q answers
  unfolding start_with station Submitted
  portal_then_join w v flash q answers ready bare run written ready' stack there up =
      let ended =
        provisioning_run-Ended nvs laws w.radio (fresh nvs flash) q answers true refl run written in
      let (n, answered, submission) =
        ended-Submitted w.radio (fresh nvs flash) q answers true refl ended in
      let load = submission.load in
      let fine = load-usable nvs q.flash (ap (λ r. r.1) load) in
      let usable : config_usable q.staged ≡ true =
        rw (sym (ap (λ (r : Config × ConfigFault). r.0) load)) fine in
      let sizes = (config_usable_iff q.staged).0 usable in
      record {
        turns = n;
        answered = answered;
        submission = submission;
        restarts = rw (start_up_ready nvs w flash ready, bare, start_with, run) refl;
        loops = start_stored v q ready' load stack there up;
        ssid_whole = take_all 32 q.staged.ssid sizes.ssid_fits;
        password_whole = take_all 64 q.staged.passphrase (omega (arith, sizes.passphrase_fits));
      }
