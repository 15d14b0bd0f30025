-- ===== src/Portal/Limits.antt =====
-- main/provisioning.cpp: the limits that the page sets its fields, against those of the handler.
use gplug_mini.Base.{
  ℕ, ◌+◌, ◌-◌, ◌*◌, ◌≡◌, refl, List, [], ◌∷◌, Bytes, codes, in_range, strncmp_eq, before, drop,
  if◌then◌else◌,
}
use gplug_mini.Config.{ssid_max, passphrase_max, broker_max, hostname_max}
use gplug_mini.Portal.Page.{page_tail}

-- The number at the front of a text.
unfoldable pub number : ℕ → Bytes → ℕ
number n [] = n
number n (c ∷ s) =
    let rest = number (n * 10 + (c - b'0')) s in if in_range c b'0' b'9' then rest else n

-- The value of `maxlength` in a tag.
unfoldable pub limit_in : Bytes → ℕ
limit_in [] = 0
limit_in (c ∷ s) =
    let rest = limit_in s in
    if strncmp_eq 10 (c ∷ s) (codes "maxlength=") then number 0 (drop 9 s) else rest

-- The inputs of a page: their names and how much a browser lets one type.
unfoldable pub inputs_of : Bytes → List (Bytes × ℕ)
inputs_of [] = []
inputs_of (c ∷ s) =
    let rest = inputs_of s in
    let tag = before b'>' (drop 11 s) in
    if strncmp_eq 12 (c ∷ s) (codes "<input name=")
    then (before b' ' tag, limit_in tag) ∷ rest
    else rest

-- The page lets one type into a field as much as its array holds.
page_inputs :
    inputs_of page_tail
    ≡ (codes "ssid", ssid_max)
      ∷ (codes "pass", passphrase_max)
      ∷ (codes "broker", broker_max)
      ∷ (codes "host", hostname_max)
      ∷ []
unfolding inputs_of limit_in number strncmp_eq before
page_inputs = refl
