-- ===== src/Form/Tests.antt =====
-- A form with an encoded space, an ampersand and a percent sign.
use gplug_mini.Base.{
  ◌≡◌, ◌<◌, refl, arith, some, List, [], ◌∷◌, Bytes, codes, All, c_str, before, strncmp_eq,
}
use gplug_mini.Form.{url_decode, hex, hex_pair, field, field_from, field_value}
use gplug_mini.Form.Decode.{url_encode, encode_char, stays, hex_digit}
use gplug_mini.Form.Fields.{Pair, form, first, expected, IsName, IsPair, field-form}

abbrev odd_text : Bytes
odd_text = codes "a b&%"

url_encode_test : url_encode odd_text ≡ codes "a+b%26%25"
unfolding url_encode encode_char stays hex_digit
url_encode_test = refl

odd_bytes : All (λ c. c < 256) odd_text
odd_bytes = (omega arith, (omega arith, (omega arith, (omega arith, (omega arith, tt)))))

abbrev two_pairs : List Pair
two_pairs = (codes "ssid", odd_text) ∷ (codes "pass", codes "a") ∷ []

host-IsName : IsName (codes "pass")
host-IsName = ground arith

two_pairs-IsPair : All IsPair two_pairs
two_pairs-IsPair = ((ground arith, odd_bytes), ((ground arith, (omega arith, tt)), tt))

field-form_example :
    field (form two_pairs) (codes "pass") 64 ≡ expected 64 (first (codes "pass") two_pairs)
field-form_example = field-form two_pairs (codes "pass") 64 host-IsName two_pairs-IsPair

short_body : field (codes "ssid=ab") (codes "ssid") 33 ≡ some (codes "ab")
unfolding field field_from field_value url_decode hex_pair hex c_str before strncmp_eq
short_body = refl
