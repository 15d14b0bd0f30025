-- ===== src/Portal/RoundTrip.antt =====
-- main/provisioning.cpp: the body that a browser submits for a configuration, through `save_post`.
use gplug_mini.Base.{
  ℕ, ◌-◌, ◌<◌, ◌≡◌, ◌≢◌, refl, ap, ◌∙◌, true, List, [], ◌∷◌, none, some, Bytes, codes, length,
  length-append, take_all, All, All-append, IsText, c_str, c_str-fix, arith, min, str_eq,
}
use gplug_mini.Config.{Config, ssid_max}
use gplug_mini.Config.Store.{Nvs}
use gplug_mini.Form.{field}
use gplug_mini.Form.Decode.{hex_digit, encode_char, url_encode}
use gplug_mini.Form.Fields.{Pair, IsPair, form, first, expected, field-form}
use gplug_mini.Portal.{
  receive, readable, has_char, read_fields, read_form, Portal, submit, save_post, body_size,
}

-- The form of `PAGE_TAIL`, filled in.
abbrev pub pairs : Config → List Pair
pairs c =
    (codes "ssid", c.ssid)
    ∷ (codes "pass", c.passphrase)
    ∷ (codes "broker", c.broker)
    ∷ (codes "host", c.hostname)
    ∷ []

IsBytes : Bytes → Type 0
IsBytes = All (λ c. c < 256)

-- A text that can be typed, and whose encoding fits an array of `size` characters.
pub record Fits (size : ℕ) (s : Bytes) : Type 0 where
  pub text : IsText s
  pub bytes : All (λ c. c < 256) s
  pub encoded : length (url_encode s) < size

pub record CanSubmit (c : Config) : Type 0 where
  pub ssid : Fits 33 c.ssid
  pub passphrase : Fits 64 c.passphrase
  pub broker : Fits 128 c.broker
  pub hostname : Fits 33 c.hostname

encode_char-IsText : (c : ℕ) → c < 256 → c ≢ 0 → IsText (encode_char c)
unfolding encode_char hex_digit
encode_char-IsText c h k = ground arith

url_encode-IsText : (s : Bytes) → All (λ c. c < 256) s → IsText s → IsText (url_encode s)
unfolding url_encode
url_encode-IsText [] h k = tt
url_encode-IsText (c ∷ s) h k =
    All-append _ (encode_char c) (url_encode s) (encode_char-IsText c h.0 k.0)
      (url_encode-IsText s h.1 k.1)

IsClean : Pair → Type 0
IsClean p = IsText p.0 × All (λ c. c < 256) p.1 × IsText p.1

form-IsText : (ps : List Pair) → All IsClean ps → IsText (form ps)
unfolding form IsClean
form-IsText [] h = tt
form-IsText ((n, v) ∷ []) h =
    let value = All-append _ (url_encode v) [] (url_encode-IsText v h.0.1 h.0.2) tt in
    All-append _ n _ h.0.0 ((λ q. omega arith), value)
form-IsText ((n, v) ∷ p ∷ ps) h =
    let rest : IsText (b'&' ∷ form (p ∷ ps)) = ((λ q. omega arith), form-IsText (p ∷ ps) h.1) in
    let value = All-append _ (url_encode v) _ (url_encode-IsText v h.0.1 h.0.2) rest in
    All-append _ n _ h.0.0 ((λ q. omega arith), value)

expected-Fits : (size : ℕ) (s : Bytes) → Fits size s → expected size (some s) ≡ some s
expected-Fits size s f = ground (arith, c_str-fix s f.text, f.encoded)

receive-one : (s : Bytes) → receive (length s) [] (some s ∷ []) ≡ some s
unfolding receive
receive-one [] = refl
receive-one (c ∷ s) = ground (arith, take_all (length (c ∷ s)) (c ∷ s) (omega arith))

module _ (c : Config) (h : CanSubmit c) where
  pairs-IsPair : All IsPair (pairs c)
  pairs-IsPair = (
    (omega arith, h.ssid.bytes),
    (
      (omega arith, h.passphrase.bytes),
      ((omega arith, h.broker.bytes), ((omega arith, h.hostname.bytes), tt)),
    ),
  )

  form-IsText-pairs : IsText (form (pairs c))
  unfolding IsClean
  form-IsText-pairs = form-IsText (pairs c) (
    (omega arith, h.ssid.bytes, h.ssid.text),
    (
      (omega arith, h.passphrase.bytes, h.passphrase.text),
      (
        (omega arith, h.broker.bytes, h.broker.text),
        ((omega arith, h.hostname.bytes, h.hostname.text), tt),
      ),
    ),
  )

  read_fields-form : read_fields (form (pairs c)) ≡ some c
  unfolding read_fields first str_eq
  read_fields-form = rw (
    read_fields,
    field-form (pairs c) (codes "ssid") 33 (omega arith) pairs-IsPair
        ∙ expected-Fits 33 c.ssid h.ssid,
    field-form (pairs c) (codes "pass") 64 (omega arith) pairs-IsPair
        ∙ expected-Fits 64 c.passphrase h.passphrase,
    field-form (pairs c) (codes "broker") 128 (omega arith) pairs-IsPair
        ∙ expected-Fits 128 c.broker h.broker,
    field-form (pairs c) (codes "host") 33 (omega arith) pairs-IsPair
        ∙ expected-Fits 33 c.hostname h.hostname,
  )

  form-readable : readable (form (pairs c)) ≡ true
  unfolding form has_char c_str
  form-readable = ground arith

  -- A configuration that is typed into the form comes back from `read_form`.
  pub read_form-form : read_form (form (pairs c)) ≡ some c
  unfolding read_form
  read_form-form =
      rw (read_form, form-readable, c_str-fix (form (pairs c)) form-IsText-pairs) read_fields-form

  length-form : length (form (pairs c)) < body_size
  unfolding form
  length-form =
      simp length-append
        (omega (arith, h.ssid.encoded, h.passphrase.encoded, h.broker.encoded, h.hostname.encoded))

  -- So a form whose values are NUL-free and fit their arrays when encoded is received whole, read
  -- back as the configuration that was typed, and handed to the store.
  pub save_post-form :
      (nvs : Nvs) (p : Portal nvs)
      → save_post nvs (length (form (pairs c))) (some (form (pairs c)) ∷ []) p
        ≡ submit nvs p (some c)
  unfolding save_post
  save_post-form nvs p =
      let body = form (pairs c) in
      let all : min (length body) (body_size - 1) ≡ length body = omega (arith, length-form) in
      rw (all, receive-one body, save_post) (ap (submit nvs p) read_form-form)

-- A browser's form with values of bytes other than NUL, in which the encoding of the SSID has more
-- than 32 characters, cannot be read, also where the SSID itself has no more.
pub read_form_encoded :
    (c : Config)
    → All IsPair (pairs c)
    → IsText (form (pairs c))
    → ssid_max < length (url_encode c.ssid)
    → read_form (form (pairs c)) ≡ none
unfolding read_form read_fields first str_eq
read_form_encoded c h t k =
    let refused : field (form (pairs c)) (codes "ssid") 33 ≡ none =
      field-form (pairs c) (codes "ssid") 33 (omega arith) h ∙ ground arith in
    let fields : read_fields (form (pairs c)) ≡ none = rw (read_fields, refused) in
    rw (read_form, c_str-fix (form (pairs c)) t, fields) (ground arith)
