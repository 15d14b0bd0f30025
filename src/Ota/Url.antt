-- ===== src/Ota/Url.antt =====
-- Which URLs are acceptable.
use gplug_mini.Base.{
  ℕ, ◌+◌, ◌≤◌, ◌<◌, ◌≡◌, ◌≢◌, ◌↔◌, inl, inr, refl, ap, true, ◌||◌, [], ◌∷◌, ◌++◌, some, Bytes,
  codes, leb, ltb, ◌==◌, if◌then◌else◌, length, get_or, All, arith, Bool-cases, Option-cases,
}
use gplug_mini.Ota.{url_length, slashes, is_http, url_shape, ota_url_acceptable}

-- A character that may stand in a URL: no control character and no space.
abbrev pub IsPlain : Bytes → Type 0
IsPlain = All (λ c. 0x20 < c)

-- A URL with either scheme.
pub data HasScheme (url : Bytes) : Type 0 where
  http : (c : ℕ) (rest : Bytes) → url ≡ codes "http://" ++ c ∷ rest → HasScheme url
  https : (c : ℕ) (rest : Bytes) → url ≡ codes "https://" ++ c ∷ rest → HasScheme url

pub record IsUrl (url : Bytes) : Type 0 where
  pub plain : IsPlain url
  pub long : 12 ≤ length url
  pub short : length url ≤ 255
  pub scheme : HasScheme url

url_length-plain :
    (n : ℕ) (s : Bytes) → IsPlain s → n + length s ≤ 255 → url_length n s ≡ some (n + length s)
unfolding url_length
url_length-plain n [] h k = ap some (omega arith)
url_length-plain n (c ∷ s) h k =
    let rest = url_length-plain (n + 1) s h.1 (omega arith) in
    let sum : n + 1 + length s ≡ n + length (c ∷ s) = omega arith in ground (arith, rest, sum)

url_length-some :
    (n : ℕ) (s : Bytes) {m : ℕ}
    → n ≤ 255
    → url_length n s ≡ some m
    → IsPlain s × (m ≡ n + length s) × (m ≤ 255)
unfolding url_length
url_length-some n [] {m} small h = (tt, ground arith, ground arith)
url_length-some n (c ∷ s) {m} small h = elim (Bool-cases (leb c 0x20 || ltb 255 (n + 1))) [
  | inl e ↦ ground arith
  | inr e ↦
      let rest = url_length-some (n + 1) s {m = m} (ground arith) (ground arith) in
      ((ground arith, rest.0), omega (arith, rest.1), rest.2)
]

http-shape :
    (c : ℕ) (rest : Bytes)
    → 12 ≤ length (codes "http://" ++ c ∷ rest)
    → c ≢ 0
    → url_shape (length (codes "http://" ++ c ∷ rest)) (codes "http://" ++ c ∷ rest) ≡ true
unfolding url_shape
http-shape c rest long some_ = ground arith

https-shape :
    (c : ℕ) (rest : Bytes)
    → 12 ≤ length (codes "https://" ++ c ∷ rest)
    → c ≢ 0
    → url_shape (length (codes "https://" ++ c ∷ rest)) (codes "https://" ++ c ∷ rest) ≡ true
unfolding url_shape
https-shape c rest long some_ = ground arith

scheme-shape :
    (url : Bytes)
    → HasScheme url
    → 12 ≤ length url
    → IsPlain url
    → url_shape (length url) url ≡ true
scheme-shape url (http c rest e) long plain =
    let p : IsPlain (codes "http://" ++ c ∷ rest) = rw e at plain in
    rw e (http-shape c rest (rw e at long) (omega (arith, p.1.1.1.1.1.1.1.0)))
scheme-shape url (https c rest e) long plain =
    let p : IsPlain (codes "https://" ++ c ∷ rest) = rw e at plain in
    rw e (https-shape c rest (rw e at long) (omega (arith, p.1.1.1.1.1.1.1.1.0)))

url_shape-long : (url : Bytes) → url_shape (length url) url ≡ true → 12 ≤ length url
unfolding url_shape
url_shape-long url h = ground arith

-- The shape, for a URL whose first characters are at hand.
shape-scheme_at :
    (a b c d e f g h i : ℕ) (rest : Bytes)
    → is_http (a ∷ b ∷ c ∷ d ∷ e ∷ f ∷ g ∷ h ∷ i ∷ rest) ≡ true
    → slashes (if e == b's' then 5 else 4) (a ∷ b ∷ c ∷ d ∷ e ∷ f ∷ g ∷ h ∷ i ∷ rest) ≡ true
    → HasScheme (a ∷ b ∷ c ∷ d ∷ e ∷ f ∷ g ∷ h ∷ i ∷ rest)
shape-scheme_at a b c d e f g h i rest web behind =
    let pa : a ≡ b'h' = ground arith in
    let pb : b ≡ b't' = ground arith in
    let pc : c ≡ b't' = ground arith in
    let pd : d ≡ b'p' = ground arith in
    elim (Bool-cases (e == b's')) [
      | inl secure ↦
          let at : slashes 5 (a ∷ b ∷ c ∷ d ∷ e ∷ f ∷ g ∷ h ∷ i ∷ rest) ≡ true =
            rw secure at behind in
          let pe : e ≡ b's' = ground arith in
          let pf : f ≡ b':' = ground arith in
          let pg : g ≡ b'/' = ground arith in
          let ph : h ≡ b'/' = ground arith in
          https i rest (λ k. pa k ∷ pb k ∷ pc k ∷ pd k ∷ pe k ∷ pf k ∷ pg k ∷ ph k ∷ i ∷ rest)
      | inr open_ ↦
          let at : slashes 4 (a ∷ b ∷ c ∷ d ∷ e ∷ f ∷ g ∷ h ∷ i ∷ rest) ≡ true =
            rw open_ at behind in
          let pe : e ≡ b':' = ground arith in
          let pf : f ≡ b'/' = ground arith in
          let pg : g ≡ b'/' = ground arith in
          http h (i ∷ rest) (λ k. pa k ∷ pb k ∷ pc k ∷ pd k ∷ pe k ∷ pf k ∷ pg k ∷ h ∷ i ∷ rest)
    ]

url_shape-parts :
    (url : Bytes)
    → url_shape (length url) url ≡ true
    → (is_http url ≡ true) × (slashes (if get_or url 4 0 == b's' then 5 else 4) url ≡ true)
unfolding url_shape
url_shape-parts url h = elim (Bool-cases (ltb (length url) 12)) [
  | inl short ↦ cc (rw short at h)
  | inr long ↦ elim (Bool-cases (is_http url)) [
    | inr ftp ↦ cc (rw (long, ftp) at h)
    | inl web ↦ (web, rw (long, web) at h)
  ]
]

-- Twelve characters are at least nine.
first_nine :
    (url : Bytes)
    → 12 ≤ length url
    → (a : ℕ) × (b : ℕ) × (c : ℕ) × (d : ℕ) × (e : ℕ) × (f : ℕ) × (g : ℕ) × (h : ℕ) × (i : ℕ)
      × (rest : Bytes) × (url ≡ a ∷ b ∷ c ∷ d ∷ e ∷ f ∷ g ∷ h ∷ i ∷ rest)
first_nine (a ∷ b ∷ c ∷ d ∷ e ∷ f ∷ g ∷ h ∷ i ∷ rest) long = (a, b, c, d, e, f, g, h, i, rest, refl)
first_nine (a ∷ b ∷ c ∷ d ∷ e ∷ f ∷ g ∷ h ∷ []) long = absurd (omega arith)
first_nine (a ∷ b ∷ c ∷ d ∷ e ∷ f ∷ g ∷ []) long = absurd (omega arith)
first_nine (a ∷ b ∷ c ∷ d ∷ e ∷ f ∷ []) long = absurd (omega arith)
first_nine (a ∷ b ∷ c ∷ d ∷ e ∷ []) long = absurd (omega arith)
first_nine (a ∷ b ∷ c ∷ d ∷ []) long = absurd (omega arith)
first_nine (a ∷ b ∷ c ∷ []) long = absurd (omega arith)
first_nine (a ∷ b ∷ []) long = absurd (omega arith)
first_nine (a ∷ []) long = absurd (omega arith)
first_nine [] long = absurd (omega arith)

shape-scheme : (url : Bytes) → url_shape (length url) url ≡ true → HasScheme url
shape-scheme url shaped =
    let (a, b, c, d, e, f, g, h, i, rest, same) = first_nine url (url_shape-long url shaped) in
    let parts = url_shape-parts (a ∷ b ∷ c ∷ d ∷ e ∷ f ∷ g ∷ h ∷ i ∷ rest) (rw same at shaped) in
    rw same (shape-scheme_at a b c d e f g h i rest parts.0 parts.1)

acceptable-IsUrl : (url : Bytes) → ota_url_acceptable url ≡ true → IsUrl url
unfolding ota_url_acceptable
acceptable-IsUrl url h = elim (Option-cases (url_length 0 url)) [
  | inl long ↦ cc (rw (long, ota_url_acceptable) at h)
  | inr (n, e) ↦
      let (plain, size, short) = url_length-some 0 url {m = n} (omega arith) e in
      let n_is : n ≡ length url = omega (arith, size) in
      let shaped : url_shape (length url) url ≡ true = rw (e, ota_url_acceptable, n_is) at h in
      record {
        plain = plain;
        long = url_shape-long url shaped;
        short = omega arith;
        scheme = shape-scheme url shaped;
      }
]

-- A URL is acceptable exactly if it begins with http:// or https:// and something behind, has 12 to
-- 255 characters, and none of them is a space or a control character.
pub ota_url_acceptable_iff : (url : Bytes) → (ota_url_acceptable url ≡ true) ↔ IsUrl url
unfolding ota_url_acceptable
ota_url_acceptable_iff url = (
  acceptable-IsUrl url,
  λ u.
      let counted = url_length-plain 0 url u.plain (omega (arith, u.short)) in
      let sum : 0 + length url ≡ length url = omega arith in
      rw (counted, ota_url_acceptable, sum) (scheme-shape url u.scheme u.long u.plain),
)
