-- ===== src/Ota/Trace.antt =====
-- Commands and downloads in any order.
use gplug_mini.Base.{
  ◌+◌, ◌<◌, ◌≡◌, inl, inr, refl, Bool, true, false, ◌||◌, List, [], ◌∷◌, ◌++◌, Bytes, leb, ◌==◌,
  length, c_str, length-c_str-le, All, All-append, arith, Bool-cases,
}
use gplug_mini.Ota.Url.{ota_url_acceptable_iff}
use gplug_mini.Ota.{
  Ota, idle, url_size, ota_url_acceptable, ota_handle_command, download_begin, download_failed,
}

-- What can happen: a message on the command topic, a task that gets to run, a download that fails.
-- The list is of the URLs that are handed to the downloader.
pub data Step (o : Ota) : Ota → List Bytes → Type 0 where
  command : (created : Bool) (payload : Bytes) → Step o (ota_handle_command created o payload).0 []
  begin : 0 < o.waiting → Step o (download_begin o).0 ((download_begin o).1 ∷ [])
  fail : 0 < o.running → Step o (download_failed o) []

pub data Steps (o : Ota) : Ota → List Bytes → Type 0 where
  none_yet : Steps o o []
  next : {p q : Ota} {us vs : List Bytes} → Steps o p us → Step p q vs → Steps o q (us ++ vs)

-- An acceptable text that fits its array.
abbrev pub IsFetchable : Bytes → Type 0
IsFetchable u = (ota_url_acceptable u ≡ true) × (length u < url_size)

-- Where a task exists, what is pending is acceptable.
pub data IsSound (o : Ota) : Type 0 where
  no_task : o.waiting ≡ 0 → o.running ≡ 0 → IsSound o
  checked : IsFetchable o.pending → IsSound o

pub command-IsSound :
    (created : Bool) (o : Ota) (payload : Bytes)
    → IsSound o
    → IsSound (ota_handle_command created o payload).0
unfolding ota_handle_command
command-IsSound created o payload h = elim (Bool-cases o.downloading) [
  | inl busy ↦ simp (busy, ota_handle_command) h
  | inr free ↦ elim (Bool-cases (length payload == 0 || leb url_size (length payload))) [
    | inl size ↦ simp (free, size, ota_handle_command) h
    | inr size ↦ elim (Bool-cases (ota_url_acceptable (c_str payload))) [
      | inr bad ↦ simp (free, size, bad, ota_handle_command) h
      | inl good ↦
          let fetchable : IsFetchable (c_str payload) =
            (good, ground (arith, length-c_str-le payload)) in
          elim (Bool-cases created) [
            | inl c ↦ simp (free, size, good, c, ota_handle_command) (checked fetchable)
            | inr c ↦ simp (free, size, good, c, ota_handle_command) (checked fetchable)
          ]
    ]
  ]
]

pub pending-IsFetchable : (o : Ota) → IsSound o → 0 < o.waiting → IsFetchable o.pending
pending-IsFetchable o (no_task w r) h = absurd (omega arith)
pending-IsFetchable o (checked f) h = f

pub failed-IsSound : (o : Ota) → IsSound o → 0 < o.running → IsSound (download_failed o)
failed-IsSound o (no_task w r) h = absurd (omega arith)
failed-IsSound o (checked f) h = unfold download_failed in checked f

Step-IsSound :
    (o q : Ota) (vs : List Bytes) → IsSound o → Step o q vs → IsSound q × All IsFetchable vs
Step-IsSound o q vs h (command created payload) = (command-IsSound created o payload h, tt)
Step-IsSound o q vs h (begin w) =
    let f = pending-IsFetchable o h w in unfold download_begin in (checked f, (f, tt))
Step-IsSound o q vs h (fail r) = (failed-IsSound o h r, tt)

Steps-IsSound :
    (o q : Ota) (us : List Bytes) → IsSound o → Steps o q us → IsSound q × All IsFetchable us
Steps-IsSound o _ _ h none_yet = (h, tt)
Steps-IsSound o q _ h (next {p = p} {us = us} {vs = vs} steps step) =
    let before = Steps-IsSound o p us h steps in
    let after = Step-IsSound p q vs before.0 step in
    (after.0, All-append IsFetchable us vs before.1 after.1)

-- Whatever messages arrive, whenever tasks are run and downloads fail, from the start on no URL is
-- handed to the downloader that is not acceptable or does not fit its array.
pub Steps-IsFetchable : {q : Ota} {us : List Bytes} → Steps idle q us → All IsFetchable us
Steps-IsFetchable {q} {us} steps = (Steps-IsSound idle q us (no_task refl refl) steps).1

accepted :
    (o : Ota) (u : Bytes)
    → o.downloading ≡ false
    → IsFetchable u
    → c_str u ≡ u
    → ota_handle_command true o u ≡ (record o { pending = u; waiting = o.waiting + 1 }, true)
unfolding ota_handle_command
accepted o u free f text =
    let long = ((ota_url_acceptable_iff u).0 f.0).long in
    let fits : (length u == 0 || leb url_size (length u)) ≡ false = ground (arith, f.1, long) in
    simp (free, fits, text, f.0) refl

-- Until the first task gets to run, a second command is accepted as well: two tasks then wait, and
-- the URL that is pending for both is the second.
pub command_twice :
    (first second : Bytes)
    → IsFetchable first
    → IsFetchable second
    → c_str first ≡ first
    → c_str second ≡ second
    → ota_handle_command true (ota_handle_command true idle first).0 second
      ≡ (record idle { pending = second; waiting = 2 }, true)
command_twice first second f s cf cs =
    rw (accepted idle first refl f cf)
      (accepted (record idle { pending = first; waiting = 1 }) second refl s cs)
