-- ===== src/App/Serial.antt =====
-- main/app_main.cpp: how the meter's serial is learned from the values.
use gplug_mini.Base.{
  ◌+◌, ◌≡◌, refl, ◌∙◌, true, not, ◌&&◌, List, [], ◌∷◌, map, Option, none, some, Bytes, arith,
  if◌then◌else◌, c_str, take, Bool-cases, inl, inr,
}
use gplug_mini.Obis.{ObisEntry, obis_lookup, is_identity}
use gplug_mini.App.{Capture, App, is_nil, on_text, on_number, on_entry, on_value, on_values}

length-zero : (s : Bytes) → is_nil s ≡ true → s ≡ []
length-zero [] h = refl
length-zero (x ∷ s) h = ground arith

module _ {Real : Type 0} (real_text : Real → Bytes) where
  -- What a value could be kept as: its text, in the array of 32, if it is text under a code of
  -- identity; nothing otherwise.
  unfoldable pub entry_text : Option ObisEntry → Capture Real → Bytes
  entry_text none c = []
  entry_text (some e) c = if not c.numeric && is_identity e.kind then c_str (take 31 c.text) else []

  abbrev pub identity_text : Capture Real → Bytes
  identity_text c = entry_text (obis_lookup (c_str (take 39 c.obis))) c

  -- The first text that is not empty.
  unfoldable pub first_some : List Bytes → Bytes
  first_some [] = []
  first_some (t ∷ ts) = if is_nil t then first_some ts else t

  -- The serial behind some values, from the one before them.
  abbrev pub learned : Bytes → List (Capture Real) → Bytes
  learned serial cs = if is_nil serial then first_some (map identity_text cs) else serial

  no_text : (t : Bytes) → is_nil t ≡ true → c_str (take 31 t) ≡ []
  unfolding c_str
  no_text t h = rw (length-zero t h) refl

  on_text-learned :
      (a : App) (e : ObisEntry) (t : Bytes)
      → (on_text real_text a e t).serial ≡ (
          if is_nil a.serial
          then (if is_identity e.kind then c_str (take 31 t) else [])
          else a.serial)
  unfolding on_text
  on_text-learned a e t = elim (Bool-cases (is_nil a.serial)) [
    | inr n ↦ ground arith
    | inl n ↦ ground (arith, length-zero a.serial n, no_text t)
  ]

  on_number-serial :
      (a : App) (e : ObisEntry) (c : Capture Real) → (on_number real_text a e c).serial ≡ a.serial
  unfolding on_number
  on_number-serial a e c = ground arith

  on_entry-learned :
      (a : App) (o : Option ObisEntry) (c : Capture Real)
      → (on_entry real_text a o c).serial ≡ (if is_nil a.serial then entry_text o c else a.serial)
  unfolding on_entry entry_text
  on_entry-learned a none c = ground (arith, length-zero a.serial)
  on_entry-learned a (some e) c =
      ground (arith, length-zero a.serial, on_number-serial a e c, on_text-learned a e c.text)

  on_value-learned :
      (a : App) (c : Capture Real)
      → (on_value real_text a c).serial ≡ (if is_nil a.serial then identity_text c else a.serial)
  unfolding on_value
  on_value-learned a c =
      on_entry-learned (record a { values = a.values + 1 }) (obis_lookup (c_str (take 39 c.obis))) c

  learned-cons :
      (serial : Bytes) (c : Capture Real) (cs : List (Capture Real))
      → learned (if is_nil serial then identity_text c else serial) cs ≡ learned serial (c ∷ cs)
  unfolding first_some
  learned-cons serial c cs = elim (Bool-cases (is_nil serial)) [
    | inl n ↦ rw n (ground arith)
    | inr n ↦ rw (n, n) refl
  ]

  -- The serial is the first text that is not empty under a code of the meter's identity, cut to 31
  -- characters; and once there is one, it stays.
  pub on_values-learned :
      (a : App) (cs : List (Capture Real)) → (on_values real_text a cs).serial ≡ learned a.serial cs
  unfolding on_values first_some
  on_values-learned a [] = ground (arith, length-zero a.serial)
  on_values-learned a (c ∷ cs) =
      on_values-learned (on_value real_text a c) cs
      ∙ rw (on_value-learned a c) (learned-cons a.serial c cs)
