-- ===== src/Ota.antt =====
-- main/ota.h and main/ota.cpp: firmware updates. The download itself and the image states are the
-- library's: what they come to is an argument. A task that was created and has not run yet is
-- counted in `waiting`, one that downloads in `running`; both read the one `pending_url`.
pub mod Url
pub mod Trace
mod Tests
use gplug_mini.Base.{
  ℕ, ◌+◌, ◌-◌, Bool, true, false, not, ◌&&◌, ◌||◌, List, [], ◌∷◌, Option, none, some, Bytes, codes,
  leb, ltb, ◌==◌, if◌then◌else◌, length, get_or, c_str,
}

-- The loop over the characters, with the number of those before.
unfoldable pub url_length : ℕ → Bytes → Option ℕ
url_length n [] = some n
url_length n (c ∷ s) =
    let rest = url_length (n + 1) s in
    if leb c 0x20 then none else if ltb 255 (n + 1) then none else rest

-- What follows the scheme's name, at `i`.
abbrev pub slashes : ℕ → Bytes → Bool
slashes i url =
    get_or url i 0 == b':'
    && get_or url (i + 1) 0 == b'/'
    && get_or url (i + 2) 0 == b'/'
    && not (get_or url (i + 3) 0 == 0)

abbrev pub is_http : Bytes → Bool
is_http url =
    get_or url 0 0 == b'h'
    && get_or url 1 0 == b't'
    && get_or url 2 0 == b't'
    && get_or url 3 0 == b'p'

-- The checks behind the loop, for a text of `n` characters.
unfoldable pub url_shape : ℕ → Bytes → Bool
url_shape n url =
    if ltb n 12
    then false
    else if not (is_http url)
    then false
    else slashes (if get_or url 4 0 == b's' then 5 else 4) url

unfoldable pub ota_url_acceptable : Bytes → Bool
ota_url_acceptable url = elim (url_length 0 url) [ none ↦ false | some n ↦ url_shape n url ]

pub record Ota : Type 0 where
  pub pending : Bytes
  pub downloading : Bool
  pub waiting : ℕ
  pub running : ℕ

abbrev pub idle : Ota
idle = record { pending = []; downloading = false; waiting = 0; running = 0 }

abbrev pub url_size : ℕ
url_size = 256

-- `created` is what `xTaskCreate` comes to.
unfoldable pub ota_handle_command : Bool → Ota → Bytes → Ota × Bool
ota_handle_command created o payload =
    if o.downloading
    then (o, false)
    else if length payload == 0 || leb url_size (length payload)
    then (o, false)
    else if not (ota_url_acceptable (c_str payload))
    then (o, false)
    else if not created
    then (record o { pending = c_str payload }, false)
    else (record o { pending = c_str payload; waiting = o.waiting + 1 }, true)

-- `download_task` up to `esp_https_ota`: the URL that is downloaded is the one pending then.
unfoldable pub download_begin : Ota → Ota × Bytes
download_begin o =
    (record o { downloading = true; waiting = o.waiting - 1; running = o.running + 1 }, o.pending)

-- `download_task` behind a download that failed.
unfoldable pub download_failed : Ota → Ota
download_failed o = record o { downloading = false; running = o.running - 1 }

-- An image's state, as far as the code tells it.
pub data Image : Type 0 where
  pending_verify other : Image

-- `ota_mark_valid_on_session`: `validated` afterwards, and whether the image was to be marked valid.
-- `state` is `none` where it cannot be read; `marked` is what the marking comes to.
unfoldable pub ota_mark_valid_on_session : Option Image → Bool → Bool → Bool × Bool
ota_mark_valid_on_session state marked true = (true, false)
ota_mark_valid_on_session none marked false = (false, false)
ota_mark_valid_on_session (some other) marked false = (true, false)
ota_mark_valid_on_session (some pending_verify) marked false = (marked, true)
