-- ===== src/Portal/Run/Saved.antt =====
-- main/provisioning.cpp: which of the portal's submissions was saved, and what stands in its body.
use gplug_mini.Base.{
  ◌≡◌, refl, sym, true, false, Bool, List, [], ◌∷◌, ◌++◌, Option, none, some, Bytes, codes, All,
  arith, if◌then◌else◌, length, c_str, Option-cases, inl, inr,
}
use gplug_mini.Config.{Config}
use gplug_mini.Form.{field}
use gplug_mini.Portal.{Answer, saved, read_form, read_fields}
use gplug_mini.Portal.Run.{Turn, Post}

-- The later of two submissions, if there is one.
unfoldable pub later : Option Post → Option Post → Option Post
later none x = x
later (some y) x = some y

unfoldable pub is_saved : Answer → Bool
is_saved saved = true
is_saved _ = false

-- The last of the submissions that was answered by "Saved", given the answer to each.
unfoldable pub last_saved : List Post → List Answer → Option Post
last_saved [] answers = none
last_saved (x ∷ xs) [] = none
last_saved (x ∷ xs) (a ∷ answers) =
    later (last_saved xs answers) (if is_saved a then some x else none)

pub later-none : (x : Option Post) → later x none ≡ x
unfolding later
later-none none = refl
later-none (some x) = refl

pub later_assoc : (x y z : Option Post) → later x (later y z) ≡ later (later x y) z
unfolding later
later_assoc none y z = refl
later_assoc (some x) y z = refl

pub last_saved-append :
    (xs ys : List Post) (answers more : List Answer)
    → length xs ≡ length answers
    → last_saved (xs ++ ys) (answers ++ more) ≡ later (last_saved ys more) (last_saved xs answers)
unfolding last_saved
last_saved-append [] ys [] more h = sym (later-none (last_saved ys more))
last_saved-append [] ys (a ∷ answers) more h = absurd (omega (arith, h))
last_saved-append (x ∷ xs) ys [] more h = absurd (omega (arith, h))
last_saved-append (x ∷ xs) ys (a ∷ answers) more h =
    rw (last_saved-append xs ys answers more (omega (arith, h)))
      (sym (later_assoc (last_saved ys more) (last_saved xs answers) _))

-- With an answer to each submission, and none of them "Saved".
pub last_saved-none :
    (xs : List Post) (answers : List Answer)
    → length xs ≡ length answers
    → last_saved xs answers ≡ none
    → All (λ a. is_saved a ≡ false) answers
unfolding last_saved is_saved later
last_saved-none [] [] n h = tt
last_saved-none [] (a ∷ answers) n h = absurd (omega (arith, n))
last_saved-none (x ∷ xs) [] n h = tt
last_saved-none (x ∷ xs) (a ∷ answers) n h = elim (Option-cases (last_saved xs answers)) [
  | inr (y, e) ↦ let never : some y ≡ none = rw (e, later) at h in cc never
  | inl e ↦
      let mine : (if is_saved a then some x else none) ≡ none = rw (e, later) at h in
      (ground (arith, mine), last_saved-none xs answers (omega (arith, n)) e)
]

-- The fields of a body, each under the name that it has in the form of the portal's page, read into
-- an array of its size.
pub record IsFilled (body : Bytes) (c : Config) : Type 0 where
  pub ssid : field (c_str body) (codes "ssid") 33 ≡ some c.ssid
  pub passphrase : field (c_str body) (codes "pass") 64 ≡ some c.passphrase
  pub broker : field (c_str body) (codes "broker") 128 ≡ some c.broker
  pub hostname : field (c_str body) (codes "host") 33 ≡ some c.hostname

pub read_form-IsFilled : (body : Bytes) (c : Config) → read_form body ≡ some c → IsFilled body c
unfolding read_form read_fields
read_form-IsFilled body c h = record {
  ssid = ground arith;
  passphrase = ground arith;
  broker = ground arith;
  hostname = ground arith;
}

-- The submissions of these turns, in their order.
unfoldable pub posts_of : List Turn → List Post
posts_of [] = []
posts_of (t ∷ ts) = t.posts ++ posts_of ts
