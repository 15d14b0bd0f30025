-- ===== src/Portal/Submit.antt =====
-- What a submission does to the device.
use gplug_mini.Base.{
  ℕ, ◌+◌, ◌-◌, ◌≡◌, ◌≢◌, ◌⊎◌, sym, ap, Bool, true, false, List, [], Option, none, some, Bytes,
  codes, arith, min, Option-cases, Bool-cases, inl, inr, c_str,
}
use gplug_mini.Config.{
  Config, no_fault, config_fault, is_none, ssid_max, passphrase_max, broker_max, hostname_max,
}
use gplug_mini.Config.Store.{Nvs, NvsLaws, config_save, config_load}
use gplug_mini.Config.Store.RoundTrip.{FitsArrays, config_load-save}
use gplug_mini.Form.Bounds.{field-Below}
use gplug_mini.Portal.{
  receive, read_fields, read_form, Answer, failed, bad_request, saved, Portal, store, submit,
  save_post, body_size,
}

read_fields-FitsArrays : (body : Bytes) (c : Config) → read_fields body ≡ some c → FitsArrays c
unfolding read_fields
read_fields-FitsArrays body c h = ground (
  arith,
  field-Below body (codes "ssid") (ssid_max + 1) (omega arith),
  field-Below body (codes "pass") (passphrase_max + 1) (omega arith),
  field-Below body (codes "broker") (broker_max + 1) (omega arith),
  field-Below body (codes "host") (hostname_max + 1) (omega arith),
)

read_form-FitsArrays : (body : Bytes) (c : Config) → read_form body ≡ some c → FitsArrays c
unfolding read_form
read_form-FitsArrays body c h = read_fields-FitsArrays (c_str body) c (ground arith)

module _ (nvs : Nvs) (laws : NvsLaws nvs) where
  store-saved :
      (c : Config) (p q : Portal nvs) (r : nvs.Flash × Bool)
      → store nvs c p r ≡ (q, saved)
      → (r ≡ (q.flash, true)) × (q.staged ≡ c) × (q.submitted ≡ true)
  unfolding store
  store-saved c p q (flash, true) h =
      let e : record { flash = flash; staged = c; submitted = true } ≡ q =
        ap (λ (r : Portal nvs × Answer). r.0) h in
      (
        ap (λ (r : Portal nvs). (r.flash, true)) e,
        sym (ap (λ (r : Portal nvs). r.staged) e),
        sym (ap (λ (r : Portal nvs). r.submitted) e),
      )
  store-saved c p q (flash, false) h = cc (ap (λ (r : Portal nvs × Answer). r.1) h)

  submit-saved :
      (p q : Portal nvs) (c : Config)
      → submit nvs p (some c) ≡ (q, saved)
      → (config_save nvs c p.flash ≡ (q.flash, true)) × (q.staged ≡ c) × (q.submitted ≡ true)
  unfolding submit
  submit-saved p q c h = elim (Bool-cases (is_none (config_fault c))) [
    | inl e ↦ store-saved c p q (config_save nvs c p.flash) (rw (e, submit) at h)
    | inr e ↦ cc (ap (λ (r : Portal nvs × Answer). r.1) (rw (e, submit) at h))
  ]

  submit-none : (p q : Portal nvs) → submit nvs p none ≢ (q, saved)
  unfolding submit
  submit-none p q h = cc (ap (λ (r : Portal nvs × Answer). r.1) h)

  -- In an NVS that keeps its laws, if a submission is answered by "Saved", the flash holds a
  -- usable configuration, the one that was submitted, which the device will load after a
  -- restart, and the portal is told to end.
  pub save_post_persists :
      (len : ℕ) (chunks : List (Option Bytes)) (p q : Portal nvs)
      → save_post nvs len chunks p ≡ (q, saved)
      → (config_load nvs q.flash ≡ (q.staged, no_fault))
        × (q.submitted ≡ true)
        × ((body : Bytes) × (receive (min len (body_size - 1)) [] chunks ≡ some body)
            × (read_form body ≡ some q.staged))
  unfolding save_post
  save_post_persists len chunks p q h =
      elim (Option-cases (receive (min len (body_size - 1)) [] chunks)) [
        | inl e ↦ cc (ap (λ (r : Portal nvs × Answer). r.1) (rw (e, save_post) at h))
        | inr (body, e) ↦
            let h' : submit nvs p (read_form body) ≡ (q, saved) = rw (e, save_post) at h in
            elim (Option-cases (read_form body)) [
              | inl f ↦ absurd (submit-none p q (rw f at h'))
              | inr (c, f) ↦
                  let (save, same, done) = submit-saved p q c (rw f at h') in
                  let load =
                    config_load-save nvs laws c p.flash q.flash [] [] []
                      (read_form-FitsArrays body c f) save in
                  (rw same load.0, done, (body, e, rw same f))
            ]
      ]

-- A submission that is answered by a refusal, or not at all, changes nothing.
pub save_post_refused :
    (nvs : Nvs) (len : ℕ) (chunks : List (Option Bytes)) (p : Portal nvs) (text : Bytes)
    → ((save_post nvs len chunks p).1 ≡ failed)
      ⊎ ((save_post nvs len chunks p).1 ≡ bad_request text)
    → (save_post nvs len chunks p).0 ≡ p
unfolding save_post submit
save_post_refused nvs len chunks p text h = ground arith
