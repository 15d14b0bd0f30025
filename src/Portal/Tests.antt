-- ===== src/Portal/Tests.antt =====
-- One submission that is saved, and one that cannot be read.
use gplug_mini.Portal.Networks.{Network, network_text, list_networks, close_summary, scan_summary}
use gplug_mini.Base.{
  decimal, snprintf, ◌≡◌, ◌<◌, refl, arith, ◌∙◌, true, false, [], ◌∷◌, none, some, Bytes, codes,
  length, All, IsText, strncmp_eq, strstr,
}
use gplug_mini.Config.{
  Config, blank, config_fault, config_usable, valid_hostname, label_chars, ssid_max,
}
use gplug_mini.Config.Store.{config_save, write_config}
use gplug_mini.Config.Tests.{list_nvs, home}
use gplug_mini.Form.Decode.{url_encode, encode_char, stays, hex_digit}
use gplug_mini.Form.Fields.{form, IsPair}
use gplug_mini.Portal.{read_form, saved, Portal, submit, save_post}
use gplug_mini.Portal.RoundTrip.{pairs, CanSubmit, save_post-form, read_form_encoded}

abbrev pub fresh : Portal list_nvs
fresh = record { flash = []; staged = blank; submitted = false }

home-CanSubmit : CanSubmit home
unfolding url_encode encode_char stays hex_digit
home-CanSubmit = record {
  ssid = record { text = ground arith; bytes = ground arith; encoded = omega arith };
  passphrase = record { text = ground arith; bytes = ground arith; encoded = omega arith };
  broker = record { text = ground arith; bytes = ground arith; encoded = omega arith };
  hostname = record { text = ground arith; bytes = ground arith; encoded = omega arith };
}

save_post-form_example :
    save_post list_nvs (length (form (pairs home))) (some (form (pairs home)) ∷ []) fresh
    ≡ submit list_nvs fresh (some home)
save_post-form_example = save_post-form home home-CanSubmit list_nvs fresh

abbrev pub after_save : Portal list_nvs
after_save = record {
  flash =
      (codes "host", codes "gplug-1")
      ∷ (codes "broker", codes "mqtt://10.0.0.2:1883")
      ∷ (codes "pass", codes "secret")
      ∷ (codes "ssid", codes "home")
      ∷ [];
  staged = home;
  submitted = true;
}

submit-home : submit list_nvs fresh (some home) ≡ (after_save, saved)
unfolding submit config_save write_config config_usable config_fault valid_hostname label_chars
    strstr strncmp_eq
submit-home = refl

abbrev pub home_body : Bytes
home_body = form (pairs home)

pub home_saved :
    save_post list_nvs (length home_body) (some home_body ∷ []) fresh ≡ (after_save, saved)
home_saved = save_post-form home home-CanSubmit list_nvs fresh ∙ submit-home

-- An SSID of twelve characters whose encoding has 36.
abbrev percents : Config
percents = record {
  ssid = codes "%%%%%%%%%%%%";
  passphrase = [];
  broker = codes "mqtt://x";
  hostname = [];
}

percents-IsPair : All IsPair (pairs percents)
percents-IsPair = ground arith

percents-IsText : IsText (form (pairs percents))
unfolding form url_encode encode_char stays hex_digit
percents-IsText = ground arith

percents_long : ssid_max < length (url_encode percents.ssid)
unfolding url_encode encode_char stays hex_digit
percents_long = omega arith

read_form_encoded_example : read_form (form (pairs percents)) ≡ none
read_form_encoded_example = read_form_encoded percents percents-IsPair percents-IsText percents_long

abbrev near : Network
near = record { ssid = codes "home"; negative = true; dbm = 61 }

scan_summary_test :
    scan_summary (some (near ∷ near ∷ []))
    ≡ codes "<p class=n>In range: home (-61 dBm), home (-61 dBm)</p>"
unfolding scan_summary close_summary list_networks network_text snprintf decimal
scan_summary_test = refl
