-- ===== src/Obis/Lookup.antt =====
-- main/obis_map.cpp: the lookup, against membership in the table.
use gplug_mini.Base.{
  Bool, true, false, ◌||◌, ◌&&◌, List, [], ◌∷◌, Option, none, some, Bytes, codes, str_eq,
  str_eq_iff, str_eq_refl, if◌then◌else◌, ◌≡◌, refl, ◌↔◌, arith, ap, sym, ◌∙◌, All, ◌⊎◌, inl, inr,
  Bool-cases, ◌<◌, length, subst, ltb,
}
use gplug_mini.Obis.{
  ObisEntry, table, lookup_in, obis_lookup, obis_is_identity, is_identity, Kind, instant,
  cumulative,
}

abbrev pub In : ObisEntry → List ObisEntry → Type 0
In e [] = ⊥
In e (x ∷ xs) = (e ≡ x) ⊎ In e xs

-- No two entries have the same code.
abbrev HasOwnCodes : List ObisEntry → Type 0
HasOwnCodes [] = Unit
HasOwnCodes (x ∷ xs) = All (λ y. str_eq x.obis y.obis ≡ false) xs × HasOwnCodes xs

table-HasOwnCodes : HasOwnCodes table
unfolding table str_eq
table-HasOwnCodes = ground arith

All-In {κ} :
    (P : ObisEntry → Type κ) (es : List ObisEntry) {e : ObisEntry} → All P es → In e es → P e
All-In P [] h m = absurd m
All-In P (x ∷ xs) h (inl m) = subst P (sym m) h.0
All-In P (x ∷ xs) h (inr m) = All-In P xs h.1 m

lookup_in-In :
    (es : List ObisEntry) {c : Bytes} {e : ObisEntry}
    → lookup_in es c ≡ some e
    → In e es × (e.obis ≡ c)
unfolding lookup_in
lookup_in-In [] h = cc
lookup_in-In (x ∷ xs) {c} {e = y} h = elim (Bool-cases (str_eq x.obis c)) [
  | inl e ↦
      let same : y ≡ x = ground arith in
      (inl same, ap (λ (z : ObisEntry). z.obis) same ∙ (str_eq_iff x.obis c).0 e)
  | inr e ↦ let later = lookup_in-In xs {c = c} {e = y} (ground arith) in (inr later.0, later.1)
]

In-lookup_in :
    (es : List ObisEntry) (e : ObisEntry) → HasOwnCodes es → In e es → lookup_in es e.obis ≡ some e
unfolding lookup_in
In-lookup_in [] e d m = absurd m
In-lookup_in (x ∷ xs) e d (inl m) = rw (m, str_eq_refl x.obis)
In-lookup_in (x ∷ xs) e d (inr m) =
    rw (All-In (λ y. str_eq x.obis y.obis ≡ false) xs d.0 m) (In-lookup_in xs e d.1 m)

-- A code is found exactly if an entry of the table has it, and then it is that entry.
pub obis_lookup_iff :
    (c : Bytes) (e : ObisEntry) → (obis_lookup c ≡ some e) ↔ (In e table × (e.obis ≡ c))
unfolding obis_lookup
obis_lookup_iff c e =
    (lookup_in-In table, λ m. rw (← m.1) (In-lookup_in table e table-HasOwnCodes m.0))

-- What holds of every entry holds of what is found.
pub obis_lookup-All {κ} :
    (P : ObisEntry → Type κ) (c : Bytes) {e : ObisEntry}
    → All P table
    → obis_lookup c ≡ some e
    → P e
obis_lookup-All P c {e} all h = All-In P table all ((obis_lookup_iff c e).0 h).0

unfoldable pub all_entries : (ObisEntry → Bool) → List ObisEntry → Bool
all_entries p [] = true
all_entries p (e ∷ es) = p e && all_entries p es

all_entries_sound :
    (p : ObisEntry → Bool) (es : List ObisEntry)
    → all_entries p es ≡ true
    → All (λ e. p e ≡ true) es
unfolding all_entries
all_entries_sound p [] h = tt
all_entries_sound p (e ∷ es) h = (ground arith, all_entries_sound p es (ground arith))

-- A test that every entry of the table passes is passed by what is found.
pub obis_lookup-test :
    (p : ObisEntry → Bool) (c : Bytes) {e : ObisEntry}
    → all_entries p table ≡ true
    → obis_lookup c ≡ some e
    → p e ≡ true
obis_lookup-test p c all = obis_lookup-All (λ x. p x ≡ true) c (all_entries_sound p table all)

abbrev identity_codes : List Bytes
identity_codes = codes "0.0.42.0.0.255" ∷ codes "0.0.96.1.0.255" ∷ codes "0.0.96.1.1.255" ∷ []

abbrev one_of : Bytes → List Bytes → Bool
one_of c [] = false
one_of c (x ∷ xs) = str_eq c x || one_of c xs

one_of_sound : (c x y z : Bytes) → one_of c (x ∷ y ∷ z ∷ []) ≡ true → (c ≡ x) ⊎ (c ≡ y) ⊎ (c ≡ z)
one_of_sound c x y z h = ground (arith, str_eq_iff c x, str_eq_iff c y, str_eq_iff c z)

abbrev identity_listed : ObisEntry → Bool
identity_listed e = if is_identity e.kind then one_of e.obis identity_codes else true

identities : all_entries identity_listed table ≡ true
unfolding table str_eq all_entries
identities = refl

IsIdentity : Option ObisEntry → Type 0
IsIdentity none = ⊥
IsIdentity (some e) = is_identity e.kind ≡ true

obis_is_identity-entry :
    (c : Bytes)
    → obis_is_identity c ≡ true
    → (e : ObisEntry) × (obis_lookup c ≡ some e) × (is_identity e.kind ≡ true)
unfolding obis_is_identity
obis_is_identity-entry c h = ground arith

-- The codes that count as the meter's identity are exactly these three.
pub obis_is_identity_iff :
    (c : Bytes)
    → (obis_is_identity c ≡ true)
      ↔ ((c ≡ codes "0.0.42.0.0.255") ⊎ (c ≡ codes "0.0.96.1.0.255") ⊎ (c ≡ codes "0.0.96.1.1.255"))
unfolding obis_is_identity obis_lookup lookup_in table str_eq
obis_is_identity_iff c = (
  λ h.
      let (e, found, i) = obis_is_identity-entry c h in
      let listed = obis_lookup-test identity_listed c identities found in
      let code : e.obis ≡ c = ((obis_lookup_iff c e).0 found).1 in
      rw (← code) (one_of_sound e.obis _ _ _ (rw i at listed)),
  λ h. elim h [ inl a ↦ rw a | inr (inl a) ↦ rw a | inr (inr a) ↦ rw a ],
)

-- The kinds that a state message carries.
abbrev pub is_measured : Kind → Bool
is_measured instant = true
is_measured cumulative = true
is_measured _ = false

abbrev own_label : ObisEntry → ObisEntry → Bool
own_label x y =
    if is_measured x.kind && (is_measured y.kind && str_eq x.label y.label)
    then str_eq x.obis y.obis
    else true

own_labels : all_entries (λ x. all_entries (own_label x) table) table ≡ true
unfolding table str_eq all_entries
own_labels = refl

own_label_sound :
    (x y : ObisEntry)
    → own_label x y ≡ true
    → is_measured x.kind ≡ true
    → is_measured y.kind ≡ true
    → x.label ≡ y.label
    → x.obis ≡ y.obis
own_label_sound x y h a b e = ground (arith, str_eq_iff x.label y.label, str_eq_iff x.obis y.obis)

-- Two codes of measurements never share a label, so the first value under a label is the first
-- value of one register.
pub measured_label :
    (c d : Bytes) {x y : ObisEntry}
    → obis_lookup c ≡ some x
    → obis_lookup d ≡ some y
    → is_measured x.kind ≡ true
    → is_measured y.kind ≡ true
    → x.label ≡ y.label
    → c ≡ d
measured_label c d {x} {y} f g a b e =
    let own = obis_lookup-test (λ v. all_entries (own_label v) table) c own_labels f in
    sym ((obis_lookup_iff c x).0 f).1
    ∙ own_label_sound x y (obis_lookup-test (own_label x) d own g) a b e
    ∙ ((obis_lookup_iff d y).0 g).1

abbrev short_label : ObisEntry → Bool
short_label e = ltb 0 (length e.label) && ltb (length e.label) 22

short_labels : all_entries short_label table ≡ true
unfolding table all_entries
short_labels = refl

-- Every label of the table has 1 to 21 characters.
pub obis_lookup-label :
    (c : Bytes) {e : ObisEntry}
    → obis_lookup c ≡ some e
    → (0 < length e.label) × (length e.label < 22)
obis_lookup-label c {e} f =
    let t : short_label e ≡ true = obis_lookup-test short_label c short_labels f in ground arith
