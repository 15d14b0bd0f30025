-- ===== src/Form/Decode.antt =====
-- main/provisioning.cpp: `url_decode`, against the encoding that a browser uses.
use gplug_mini.Base.{
  in_range, ℕ, ◌+◌, ◌-◌, ◌/◌, ◌%◌, ◌<◌, ◌≡◌, ◌≢◌, refl, ap, ◌∙◌, Bool, true, false, ◌||◌, [], ◌∷◌,
  ◌++◌, none, some, Bytes, ltb, ◌==◌, if◌then◌else◌, All, holds_under, holds_under_sound, arith,
}
use gplug_mini.Form.{hex, hex_pair, plain, url_decode}

-- `application/x-www-form-urlencoded`, as the browser writes it: a space becomes `+`, letters,
-- digits and `-._*` stay, and all else is `%` and two hexadecimal digits.
unfoldable pub stays : ℕ → Bool
stays c =
    in_range c b'a' b'z'
    || in_range c b'A' b'Z'
    || in_range c b'0' b'9'
    || c == b'-'
    || c == b'.'
    || c == b'_'
    || c == b'*'

unfoldable pub hex_digit : ℕ → ℕ
hex_digit n = if ltb n 10 then b'0' + n else b'A' + (n - 10)

unfoldable pub encode_char : ℕ → Bytes
encode_char c =
    if stays c
    then c ∷ []
    else if c == b' '
    then b'+' ∷ []
    else b'%' ∷ hex_digit (c / 16) ∷ hex_digit (c % 16) ∷ []

unfoldable pub url_encode : Bytes → Bytes
url_encode [] = []
url_encode (c ∷ s) = encode_char c ++ url_encode s

pair_decodes : ℕ → Bool
pair_decodes c = elim (hex_pair (hex_digit (c / 16)) (hex_digit (c % 16))) [
  | none ↦ false
  | some v ↦ v == c
]

pairs_table : holds_under pair_decodes 256 ≡ true
unfolding holds_under pair_decodes hex_pair hex hex_digit
pairs_table = refl

hex_pair-hex_digit : (c : ℕ) → c < 256 → hex_pair (hex_digit (c / 16)) (hex_digit (c % 16)) ≡ some c
unfolding pair_decodes
hex_pair-hex_digit c h = ground (arith, holds_under_sound pair_decodes 256 pairs_table h)

url_decode-plain : (c : ℕ) (s : Bytes) → c ≢ b'%' → url_decode (c ∷ s) ≡ plain c ∷ url_decode s
unfolding url_decode
url_decode-plain c [] h = refl
url_decode-plain c (a ∷ []) h = refl
url_decode-plain c (a ∷ b ∷ s) h = ground arith

url_decode-percent :
    (a b v : ℕ) (s : Bytes)
    → hex_pair a b ≡ some v
    → url_decode (b'%' ∷ a ∷ b ∷ s) ≡ v ∷ url_decode s
unfolding url_decode
url_decode-percent a b v s h = ground arith

url_decode-encode_char :
    (c : ℕ) (s : Bytes) → c < 256 → url_decode (encode_char c ++ s) ≡ c ∷ url_decode s
unfolding encode_char stays
url_decode-encode_char c s h = ground (
  arith,
  url_decode-plain c s,
  url_decode-plain b'+' s,
  url_decode-percent _ _ c s (hex_pair-hex_digit c h),
)

-- Whatever bytes a value holds, decoding its encoding gives it back.
pub url_decode-url_encode : (s : Bytes) → All (λ c. c < 256) s → url_decode (url_encode s) ≡ s
unfolding url_encode
url_decode-url_encode [] h = unfold url_decode in refl
url_decode-url_encode (c ∷ s) h =
    url_decode-encode_char c (url_encode s) h.0 ∙ ap (◌∷◌ c) (url_decode-url_encode s h.1)
