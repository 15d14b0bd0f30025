-- ===== src/Ota/Tests.antt =====
-- One update from a local server.
use gplug_mini.Base.{◌≡◌, ◌↔◌, refl, arith, true, false, [], ◌∷◌, Bytes, codes, c_str, All}
use gplug_mini.Ota.{
  Ota, idle, url_length, url_shape, ota_url_acceptable, ota_handle_command, download_begin,
}
use gplug_mini.Ota.Url.{IsUrl, ota_url_acceptable_iff}
use gplug_mini.Ota.Trace.{
  Steps, none_yet, next, command, begin, IsFetchable, Steps-IsFetchable, command_twice,
}

abbrev image : Bytes
image = codes "http://10.0.0.2/gplug.bin"

abbrev newer : Bytes
newer = codes "https://10.0.0.2/new.bin"

image-IsFetchable : IsFetchable image
unfolding ota_url_acceptable url_length url_shape
image-IsFetchable = (refl, omega arith)

newer-IsFetchable : IsFetchable newer
unfolding ota_url_acceptable url_length url_shape
newer-IsFetchable = (refl, omega arith)

no_scheme_test : ota_url_acceptable (codes "10.0.0.2/gplug.bin") ≡ false
unfolding ota_url_acceptable url_length url_shape
no_scheme_test = refl

ota_url_acceptable_iff_example : (ota_url_acceptable image ≡ true) ↔ IsUrl image
ota_url_acceptable_iff_example = ota_url_acceptable_iff image

abbrev commanded : Ota
commanded = record idle { pending = image; waiting = 1 }

one_command : Steps idle commanded []
unfolding ota_handle_command ota_url_acceptable url_length url_shape c_str
one_command = next none_yet (command true image)

one_download : Steps idle (download_begin commanded).0 (image ∷ [])
unfolding download_begin
one_download = next one_command (begin (omega arith))

Steps-IsFetchable_example : All IsFetchable (image ∷ [])
Steps-IsFetchable_example = Steps-IsFetchable one_download

image_text : c_str image ≡ image
unfolding c_str
image_text = refl

newer_text : c_str newer ≡ newer
unfolding c_str
newer_text = refl

command_twice_example :
    ota_handle_command true (ota_handle_command true idle image).0 newer
    ≡ (record idle { pending = newer; waiting = 2 }, true)
command_twice_example =
    command_twice image newer image-IsFetchable newer-IsFetchable image_text newer_text
