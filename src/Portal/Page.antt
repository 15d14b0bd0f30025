-- ===== src/Portal/Page.antt =====
-- main/provisioning.cpp, the page that the portal shows, and the choice of the handler. The HTTP
-- server's matching of a path to a pattern is not part of the program; the pattern of `any` matches
-- every path.
use gplug_mini.Base.{List, [], ◌∷◌, ◌++◌, Bytes, codes, ◌==◌, length, if◌then◌else◌}

abbrev pub page_head : Bytes
page_head =
    codes "<!doctype html><meta name=viewport content='width=device-width,initial-scale=1'>"
    ++ codes "<title>gPlug-mini setup</title>"
    ++ codes "<style>body{font-family:system-ui;margin:2rem;max-width:32rem}"
    ++ codes
        "label{display:block;margin:.75rem 0 .25rem}input,select{width:100%;padding:.5rem;font-size:1rem}"
    ++ codes "button{margin-top:1rem;padding:.6rem 1.2rem;font-size:1rem}"
    ++ codes ".n{color:#666;font-size:.85rem}</style>"
    ++ codes "<h1>gPlug-mini</h1><form method=post action=/save>"

abbrev pub page_tail : Bytes
page_tail =
    codes "<label>WiFi network</label><input name=ssid maxlength=32 required>"
    ++ codes "<label>WiFi password <span class=n>(leave blank for an open network)</span></label>"
    ++ codes "<input name=pass type=password maxlength=63>"
    ++ codes "<label>MQTT broker</label>"
    ++ codes
        "<input name=broker maxlength=127 placeholder='mqtt://homeassistant.local:1883' required>"
    ++ codes "<p class=n>The scheme is required. An address on its own is refused here rather "
    ++ codes "than failing later as a connection error.</p>"
    ++ codes "<label>Hostname <span class=n>(optional)</span></label><input name=host maxlength=32>"
    ++ codes "<button type=submit>Save and restart</button></form>"

-- The chunks that are sent; the empty one ends the answer.
unfoldable pub page_get : Bytes → List Bytes
page_get summary =
    page_head ∷ (if length summary == 0 then [] else summary ∷ []) ++ (page_tail ∷ [] ∷ [])
