-- ===== src/Portal/Networks.antt =====
-- main/provisioning.cpp, the list of networks on the portal's page: `scan_networks_once`. What the
-- scan found is an argument, `none` where it failed. `text` is `scan_summary` up to `used`: what
-- stands behind is overwritten, or cut off by a NUL, before the text is read.
use gplug_mini.Base.{
  ℕ, suc, ◌+◌, ◌-◌, ◌<◌, ◌≡◌, sym, ap, ◌∙◌, arith, Bool, true, false, not, List, [], ◌∷◌, ◌++◌,
  append_assoc, append-nil, Option, none, some, Bytes, codes, decimal, snprintf, length,
  length-append, length-take, take, leb, ltb, ◌==◌, if◌then◌else◌, Bool-cases, inl, inr,
}

-- A network's name, and its strength in dBm as a sign and a size.
pub record Network : Type 0 where
  pub ssid : Bytes
  pub negative : Bool
  pub dbm : ℕ

abbrev pub max_listed : ℕ
max_listed = 12

abbrev pub summary_size : ℕ
summary_size = 512

-- The text of the network at place `i`.
unfoldable pub network_text : ℕ → Network → Bytes
network_text i w =
    (if i == 0 then [] else codes ", ")
    ++ (w.ssid
        ++ (codes " ("
            ++ ((if w.negative then codes "-" else []) ++ (decimal w.dbm ++ codes " dBm)"))))

-- The loop, from place `i` on.
unfoldable pub list_networks : ℕ → Bytes → List Network → Bytes
list_networks i text [] = text
list_networks i text (w ∷ ws) =
    let next = list_networks (i + 1) (text ++ network_text i w) ws in
    if not (ltb (length text) summary_size)
    then text
    else if leb (summary_size - length text) (length (network_text i w))
    then text
    else next

abbrev pub summary_head : Bytes
summary_head = codes "<p class=n>In range: "

-- The end of the paragraph, where there is room.
unfoldable pub close_summary : Bytes → Bytes
close_summary text =
    if ltb (length text) summary_size
    then text ++ (snprintf (summary_size - length text) (codes "</p>")).0
    else text

unfoldable pub scan_summary : Option (List Network) → Bytes
scan_summary none = []
scan_summary (some []) = []
scan_summary (some (w ∷ ws)) =
    close_summary (list_networks 0 summary_head (take max_listed (w ∷ ws)))

-- The texts of networks, from place `i` on.
unfoldable pub texts_from : ℕ → List Network → Bytes
texts_from i [] = []
texts_from i (w ∷ ws) = network_text i w ++ texts_from (i + 1) ws

list_networks_whole :
    (i : ℕ) (text : Bytes) (ws : List Network)
    → length text < summary_size
    → (k : ℕ) × (list_networks i text ws ≡ text ++ texts_from i (take k ws))
      × (length (list_networks i text ws) < summary_size)
unfolding list_networks texts_from
list_networks_whole i text [] h = (0, sym (append-nil text), h)
list_networks_whole i text (w ∷ ws) h =
    let room : not (ltb (length text) summary_size) ≡ false = ground arith in
    elim (Bool-cases (leb (summary_size - length text) (length (network_text i w)))) [
      | inl full ↦ (
        0,
        rw (room, full, list_networks) (sym (append-nil text)),
        rw (room, full, list_networks) h,
      )
      | inr fits ↦
          let size = length-append text (network_text i w) in
          let (k, same, short) =
            list_networks_whole (i + 1) (text ++ network_text i w) ws (ground arith) in
          (
            suc k,
            rw (room, fits, list_networks) (same ∙ append_assoc text (network_text i w) _),
            rw (room, fits, list_networks) short,
          )
    ]

-- However many networks a scan finds and whatever their names, the summary fits its array, and names
-- whole the first so many of them, at most twelve, with no part of a further one; the end of the
-- paragraph follows, cut where the array ends.
pub scan_summary_whole :
    (w : Network) (ws : List Network)
    → (k : ℕ) × (n : ℕ) × (scan_summary (some (w ∷ ws))
        ≡ (summary_head ++ texts_from 0 (take k (take max_listed (w ∷ ws))))
          ++ take n (codes "</p>"))
      × (length (scan_summary (some (w ∷ ws))) < summary_size)
unfolding scan_summary close_summary snprintf
scan_summary_whole w ws =
    let (k, same, short) =
      list_networks_whole 0 summary_head (take max_listed (w ∷ ws)) (omega arith) in
    let text = list_networks 0 summary_head (take max_listed (w ∷ ws)) in
    let n = summary_size - length text - 1 in
    let fits : ltb (length text) summary_size ≡ true = ground arith in
    (
      k,
      n,
      rw (fits) (ap (λ t. t ++ take n (codes "</p>")) same),
      rw (fits)
          (omega (arith, length-append text (take n (codes "</p>")), length-take n (codes "</p>"))),
    )
