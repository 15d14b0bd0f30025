-- ===== src/Portal/Run/Ends.antt =====
-- main/provisioning.cpp: how long the portal stays up, and what it shows.
use gplug_mini.Base.{
  ℕ, ◌+◌, ◌*◌, ◌≤◌, ◌<◌, ◌≡◌, refl, ap, arith, Bool, true, false, not, ◌&&◌, ◌||◌, List, [], ◌∷◌,
  ◌++◌, none, some, Bytes, leb, length, Bool-cases, inl, inr, snprintf,
}
use gplug_mini.Config.Store.{Nvs}
use gplug_mini.Net.Setup.{auth_wpa2, net_stack_init}
use gplug_mini.Portal.{Answer, Portal}
use gplug_mini.Portal.Run.{
  Turn, Post, Radio, Run, aborted, returned, save_posts, wait, finish, access_point, AccessPoint,
  provisioning_run, timeout_ms,
}
use gplug_mini.Softap.{ap_ssid, ap_passphrase, ap_ssid_max, ap_passphrase_max, wpa2_min_passphrase}

-- The turns come 200 milliseconds apart at the least, none before the time `since`.
unfoldable pub IsPaced : ℕ → List Turn → Type 0
IsPaced since [] = Unit
IsPaced since (t ∷ ts) = (since ≤ t.checked) × IsPaced (t.checked + 200000) ts

-- The access point of any device: WPA2, with a passphrase that WPA2 takes, in the driver's arrays.
pub record Secured (mac : Bytes) (point : AccessPoint) : Type 0 where
  pub is : access_point mac ≡ some point
  pub closed : point.authmode ≡ auth_wpa2
  pub long : wpa2_min_passphrase ≤ length point.password
  pub password_fits : length point.password ≤ ap_passphrase_max
  pub ssid_fits : length point.ssid ≤ ap_ssid_max
  pub counted : point.ssid_len ≡ length point.ssid

-- Whatever its address, a device raises its access point with WPA2, and never without a passphrase
-- of at least eight characters; the name and the passphrase fit the driver's arrays, and the length
-- that the driver is told is that of the name.
pub access_point-Secured : (mac : Bytes) → (point : AccessPoint) × Secured mac point
unfolding access_point ap_ssid ap_passphrase snprintf
access_point-Secured mac = (
  _,
  record {
    is = refl;
    closed = refl;
    long = omega arith;
    password_fits = omega arith;
    ssid_fits = omega arith;
    counted = refl;
  },
)

module _ (nvs : Nvs) where
  wait_ends :
      (deadline since : ℕ) (ts : List Turn) (p : Portal nvs)
      → IsPaced since ts
      → 0 < length ts
      → deadline + 200000 ≤ since + 200000 * length ts
      → (q : Portal nvs) × (answers : List Answer) × (wait nvs deadline ts p ≡ some (q, answers))
  unfolding wait IsPaced
  wait_ends deadline since [] p paced some_ late = absurd (omega arith)
  wait_ends deadline since (t ∷ []) p paced some_ late =
      let over : (p.submitted || leb deadline t.checked) ≡ true = ground (arith, paced.0) in
      (p, [], rw (over, wait) refl)
  wait_ends deadline since (t ∷ u ∷ ts) p paced some_ late =
      elim (Bool-cases (p.submitted || leb deadline t.checked)) [
        | inl over ↦ (p, [], rw (over, wait) refl)
        | inr going ↦
            let (q, answers) = save_posts nvs t.posts p in
            let (r, more, same) =
              wait_ends deadline (t.checked + 200000) (u ∷ ts) q paced.1 (omega arith)
                (omega (arith, paced.0)) in
            (
              r,
              answers ++ more,
              rw (going, wait)
                  (ap (λ w. elim w [ none ↦ none | some r ↦ some (r.0, answers ++ r.1) ]) same),
            )
      ]

  -- That a run came to its end.
  pub data Over : Run nvs → Type 0 where
    stopped : Over aborted
    over : (q : Portal nvs) (answers : List Answer) (b : Bool) → Over (returned q answers b)

  finish-Over : (late : List Post) (w : Portal nvs × List Answer) → Over (finish nvs late w)
  finish-Over late (p, answers) =
      let last = save_posts nvs late p in over last.0 (answers ++ last.1) last.0.submitted

  -- If the turns of the loop come 200 milliseconds apart, the first of them not before the loop is
  -- entered, then the run has returned after 1501 of them, which is five minutes, or was stopped
  -- before by a check that failed; whether or not anything is submitted, and whatever is stored.
  pub provisioning_run-Over :
      (r : Radio) (p : Portal nvs)
      → IsPaced r.begun r.turns
      → 1501 ≤ length r.turns
      → Over (provisioning_run nvs r p)
  unfolding provisioning_run
  provisioning_run-Over r p paced many =
      let deadline = r.begun + timeout_ms * 1000 in
      let (q, answers, same) =
        wait_ends deadline r.begun r.turns p paced (omega arith) (omega arith) in
      let found = (access_point-Secured r.mac).1.is in
      elim (Bool-cases (not (net_stack_init r.netif r.event_loop && r.drivers))) [
        | inl bad ↦ rw (found, provisioning_run, bad) stopped
        | inr good ↦ elim (Bool-cases (not r.http)) [
          | inl bad ↦ rw (found, provisioning_run, good, bad) (over p [] false)
          | inr up ↦ rw (found, provisioning_run, good, up, same) (finish-Over r.late (q, answers))
        ]
      ]
