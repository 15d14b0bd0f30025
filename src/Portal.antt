-- ===== src/Portal.antt =====
-- main/provisioning.cpp, the handler `save_post`. The HTTP server is not part of the program: what
-- `httpd_req_recv` delivers is a list, with `none` for a result of 0 or less.
pub mod Submit
pub mod RoundTrip
pub mod Networks
pub mod Page
pub mod Limits
pub mod Run
pub mod Tests
use gplug_mini.Base.{
  ℕ, ◌+◌, ◌-◌, Bool, true, false, ◌&&◌, ◌||◌, List, [], ◌∷◌, ◌++◌, Option, none, some, Bytes, codes,
  leb, ltb, ◌==◌, if◌then◌else◌, length, take, c_str, snprintf, min,
}
use gplug_mini.Config.{
  Config, ConfigFault, unparseable, config_fault, is_none, describe, ssid_max, passphrase_max,
  broker_max, hostname_max,
}
use gplug_mini.Config.Store.{Nvs, config_save}
use gplug_mini.Form.{field}

abbrev pub body_size : ℕ
body_size = 512

-- The loop that fills `body`; a list that ends early is a connection that gives no more.
unfoldable pub receive : ℕ → Bytes → List (Option Bytes) → Option Bytes
receive len got [] = if leb len (length got) then some got else none
receive len got (none ∷ more) = if leb len (length got) then some got else none
receive len got (some r ∷ more) =
    let rest = receive len (got ++ take (len - length got) r) more in
    if leb len (length got) then some got else if length r == 0 then none else rest

-- `strchr(s, c) != nullptr`
unfoldable pub has_char : ℕ → Bytes → Bool
has_char c [] = false
has_char c (x ∷ s) = x == c || has_char c s

abbrev pub readable : Bytes → Bool
readable body = ltb 0 (length body) && has_char b'=' (c_str body)

infixl 5 ◌>>=◌
abbrev ◌>>=◌ : {A B : Type 0} → Option A → (A → Option B) → Option B
none >>= f = none
some a >>= f = f a

-- The four fields, of a body that can be read.
unfoldable pub read_fields : Bytes → Option Config
read_fields body = do
  ssid ← field body (codes "ssid") (ssid_max + 1)
  passphrase ← field body (codes "pass") (passphrase_max + 1)
  broker ← field body (codes "broker") (broker_max + 1)
  hostname ← field body (codes "host") (hostname_max + 1)
  some (record { ssid = ssid; passphrase = passphrase; broker = broker; hostname = hostname })

unfoldable pub read_form : Bytes → Option Config
read_form body = if readable body then read_fields (c_str body) else none

-- What the handler answers; `failed` is `ESP_FAIL`, with no answer.
pub data Answer : Type 0 where
  failed : Answer
  bad_request : Bytes → Answer
  server_error : Answer
  saved : Answer

-- The text that a refusal shows, in 256 bytes.
unfoldable pub refusal : ConfigFault → Bytes
refusal fault =
    (snprintf 256 (
      codes "<!doctype html><h1>Not saved</h1><p>"
      ++ (describe fault ++ codes "</p><p><a href=/>Back</a></p>"))).0

module _ (nvs : Nvs) where
  pub record Portal : Type 0 where
    pub flash : nvs.Flash
    pub staged : Config
    pub submitted : Bool

  store : Config → Portal → nvs.Flash × Bool → Portal × Answer
  store c p (flash, true) = (record { flash = flash; staged = c; submitted = true }, saved)
  store c p (flash, false) = (record p { flash = flash }, server_error)

  -- The handler behind the reading of the form.
  unfoldable pub submit : Portal → Option Config → Portal × Answer
  unfolding store
  submit p none = (p, bad_request (refusal unparseable))
  submit p (some c) =
      if is_none (config_fault c)
      then store c p (config_save nvs c p.flash)
      else (p, bad_request (refusal (config_fault c)))

  unfoldable pub save_post : ℕ → List (Option Bytes) → Portal → Portal × Answer
  save_post content_len chunks p = elim (receive (min content_len (body_size - 1)) [] chunks) [
    | none ↦ (p, failed)
    | some body ↦ submit p (read_form body)
  ]
