-- ===== src/Portal/Run/Tests.antt =====
-- A portal to which one form is submitted, and one to which nothing is.
use gplug_mini.Base.{
  ℕ, zero, suc, ◌+◌, ◌*◌, ◌≡◌, refl, ap, arith, true, List, [], ◌∷◌, some, Bytes, length,
}
use gplug_mini.Config.Tests.{list_nvs, list_nvs-NvsLaws}
use gplug_mini.Net.Setup.{esp_ok, esp_invalid_state, net_stack_init}
use gplug_mini.Portal.{Portal, Answer, saved}
use gplug_mini.Portal.Tests.{fresh, after_save, home_body, home_saved}
use gplug_mini.Portal.Run.{
  Turn, Radio, returned, save_posts, wait, AccessPoint, provisioning_run, timeout_ms,
}
use gplug_mini.Portal.Run.Stored.{Ended, provisioning_run-Ended}
use gplug_mini.Portal.Run.Ends.{IsPaced, Over, provisioning_run-Over, Secured, access_point-Secured}

abbrev pub address : Bytes
address = 0x34 ∷ 0x85 ∷ 0x18 ∷ 0xAB ∷ 0x01 ∷ 0xFF ∷ []

abbrev pub evening : Radio
evening = record {
  mac = address;
  netif = esp_ok;
  event_loop = esp_invalid_state;
  drivers = true;
  http = true;
  begun = 1000;
  turns =
      record { checked = 1000; posts = (length home_body, some home_body ∷ []) ∷ [] }
      ∷ record { checked = 201000; posts = [] }
      ∷ [];
  late = [];
}

wait_test :
    wait list_nvs (evening.begun + timeout_ms * 1000) evening.turns fresh
    ≡ some (after_save, saved ∷ [])
unfolding wait save_posts
wait_test =
    rw (wait, save_posts, home_saved)
      (ap (λ (r : Portal list_nvs × Answer). some (after_save, r.1 ∷ [])) home_saved)

pub evening_test : provisioning_run list_nvs evening fresh ≡ returned after_save (saved ∷ []) true
unfolding provisioning_run save_posts net_stack_init
evening_test = rw (provisioning_run, (access_point-Secured address).1.is, wait_test) refl

provisioning_run-Ended_example : Ended list_nvs evening fresh (saved ∷ []) after_save true
provisioning_run-Ended_example =
    provisioning_run-Ended list_nvs list_nvs-NvsLaws evening fresh after_save (saved ∷ []) true refl
      evening_test ((λ e. cc e), tt)

-- Turns on which nothing arrives.
unfoldable idle_turns : ℕ → ℕ → List Turn
idle_turns since zero = []
idle_turns since (suc n) = record { checked = since; posts = [] } ∷ idle_turns (since + 200000) n

idle_turns-IsPaced : (since n : ℕ) → IsPaced since (idle_turns since n)
unfolding IsPaced idle_turns
idle_turns-IsPaced since zero = tt
idle_turns-IsPaced since (suc n) = (omega arith, idle_turns-IsPaced (since + 200000) n)

length-idle_turns : (since n : ℕ) → length (idle_turns since n) ≡ n
unfolding idle_turns
length-idle_turns since zero = refl
length-idle_turns since (suc n) = ap suc (length-idle_turns (since + 200000) n)

abbrev night : Radio
night = record evening { turns = idle_turns 1000 1501 }

provisioning_run-Over_example : Over list_nvs (provisioning_run list_nvs night fresh)
provisioning_run-Over_example =
    provisioning_run-Over list_nvs night fresh (idle_turns-IsPaced 1000 1501)
      (omega (arith, length-idle_turns 1000 1501))

access_point-Secured_example : (point : AccessPoint) × Secured address point
access_point-Secured_example = access_point-Secured address
