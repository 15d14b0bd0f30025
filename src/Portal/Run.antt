-- ===== src/Portal/Run.antt =====
-- main/provisioning.cpp: `provisioning_run`, from the identity of the access point to its end. The
-- drivers and the HTTP server are given by what they come to, and time by the turns of the loop that
-- waits.
pub mod Saved
pub mod Held
pub mod Stored
pub mod Ends
pub mod Tests
use gplug_mini.Base.{
  ℕ, ◌+◌, ◌*◌, ◌%◌, Bool, true, false, not, ◌&&◌, ◌||◌, List, [], ◌∷◌, ◌++◌, Option, none, some,
  Bytes, leb, ◌==◌, length, if◌then◌else◌,
}
use gplug_mini.Config.Store.{Nvs}
use gplug_mini.Net.Setup.{Esp, AuthMode, auth_wpa2, net_stack_init}
use gplug_mini.Portal.{Answer, Portal, save_post}
use gplug_mini.Softap.{ap_ssid, ap_passphrase, ap_ssid_max, ap_passphrase_max}

abbrev pub timeout_ms : ℕ
timeout_ms = 5 * 60 * 1000

-- `cfg.ap`, as it is given to the driver.
pub record AccessPoint : Type 0 where
  pub ssid : Bytes
  pub ssid_len : ℕ
  pub password : Bytes
  pub channel : ℕ
  pub max_connection : ℕ
  pub authmode : AuthMode

-- The access point of the device with the address `mac`, if its identity can be derived.
unfoldable pub access_point : Bytes → Option AccessPoint
access_point mac =
    let (ssid, ssid_len) = ap_ssid mac (ap_ssid_max + 1) in
    let (pass, pass_len) = ap_passphrase mac (ap_passphrase_max + 1) in
    if ssid_len == 0 || pass_len == 0
    then none
    else some (record {
      ssid = ssid;
      ssid_len = length ssid % 256;
      password = pass;
      channel = 1;
      max_connection = 4;
      authmode = auth_wpa2;
    })

-- A request to `/save`: the length that it announces, and what is received of it.
abbrev pub Post : Type 0
Post = ℕ × List (Option Bytes)

-- A turn of the loop: the time, in microseconds, at which it is compared with the deadline, and the
-- submissions that are handled from then to the next turn.
pub record Turn : Type 0 where
  pub checked : ℕ
  pub posts : List Post

module _ (nvs : Nvs) where
  unfoldable pub save_posts : List Post → Portal nvs → Portal nvs × List Answer
  save_posts [] p = (p, [])
  save_posts ((len, chunks) ∷ posts) p =
      let (q, answer) = save_post nvs len chunks p in
      let (r, answers) = save_posts posts q in (r, answer ∷ answers)

  -- The loop; `none` if the turns run out before it ends.
  unfoldable pub wait : ℕ → List Turn → Portal nvs → Option (Portal nvs × List Answer)
  wait deadline [] p = none
  wait deadline (t ∷ ts) p =
      let (q, answers) = save_posts t.posts p in
      let rest = wait deadline ts q in
      if p.submitted || leb deadline t.checked
      then some (p, [])
      else elim rest [ none ↦ none | some r ↦ some (r.0, answers ++ r.1) ]

-- What the device meets: its address; what the stack, the drivers that are checked and the HTTP
-- server come to; the time before the loop, the turns of the loop, and the submissions that are
-- handled between its end and the stop of the server.
pub record Radio : Type 0 where
  pub mac : Bytes
  pub netif : Esp
  pub event_loop : Esp
  pub drivers : Bool
  pub http : Bool
  pub begun : ℕ
  pub turns : List Turn
  pub late : List Post

-- `aborted` is a failed `ESP_ERROR_CHECK`, `unfinished` a run that the turns do not see the end of.
pub data Run (nvs : Nvs) : Type 0 where
  aborted : Run nvs
  unfinished : Run nvs
  returned : Portal nvs → List Answer → Bool → Run nvs

module _ (nvs : Nvs) where
  -- The end of the run.
  abbrev pub finish : List Post → Portal nvs × List Answer → Run nvs
  finish late (p, answers) =
      let (q, more) = save_posts nvs late p in returned q (answers ++ more) q.submitted

  unfoldable pub provisioning_run : Radio → Portal nvs → Run nvs
  provisioning_run r p = elim (access_point r.mac) [
    | none ↦ returned p [] false
    | some ap ↦
        let waited = wait nvs (r.begun + timeout_ms * 1000) r.turns p in
        if not (net_stack_init r.netif r.event_loop && r.drivers)
        then aborted
        else if not r.http
        then returned p [] false
        else elim waited [ none ↦ unfinished | some w ↦ finish r.late w ]
  ]
