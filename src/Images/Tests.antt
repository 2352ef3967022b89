-- ===== src/Images/Tests.antt =====
-- Runs of the cache of image invocations.
use llm_aio_gateway.Prelude.{
  all, not, ◌&&◌, ℕ, ◌≤◌, max, ◌≡◌, refl, ◌⊎◌, String, Bool, true, false, none, some, [], ◌∷◌, ◌==◌,
  nat_eq, string_eq, length, arith,
}
use llm_aio_gateway.Dict.{get, put, pop}
use llm_aio_gateway.Images.Defs.{
  result, was_cancelled, Entry, Invocations, Claim, Settings, is_complete, is_expired, is_abandoned,
  keys_where, completed, insert_by_time, sort_by_time, is_done, settle, invalidate, abandon_one,
  abandon, drop_all, make_room, drop_old, make_room_for, claim, resolve, reject,
}
use llm_aio_gateway.Images.Dropping.{is_claimed}
use llm_aio_gateway.Images.Adding.{with_claim}
use llm_aio_gateway.Images.Sharing.{Reach, start, claims, withdraws, one_owner}
use llm_aio_gateway.Images.Withdrawn.{without}
use llm_aio_gateway.Images.Claims.{length-claim}
use llm_aio_gateway.Images.Outcomes.{settled_for_good}
use llm_aio_gateway.Images.Reuse.{claim-resolve, claim-reject}
use llm_aio_gateway.Images.Refusal.{claim-refused}

image_machine : Unit {0}
unfolding get put pop is_expired is_abandoned keys_where completed insert_by_time sort_by_time
    is_done settle invalidate abandon_one abandon drop_all make_room drop_old make_room_for claim
    resolve reject is_claimed with_claim
image_machine = tt

abbrev State : Type 0
State = Invocations String String

abbrev nothing : State
nothing = record { entries = []; settled = []; next_future = 0 }

abbrev settings : Settings
settings = record { ttl_seconds = 300; max_entries = 1; inflight_max_age_seconds = 60 }

abbrev owned : Claim
owned = record { key = "cat"; owner = true; future = 0 }

abbrev cat_entry : Entry
cat_entry = record { future = 0; created_at = 10; completed_at = none }

abbrev claimed_once : State
claimed_once = record { entries = ("cat", cat_entry) ∷ []; settled = []; next_future = 1 }

first_claim : claim "cat" settings 10 nothing ≡ (claimed_once, some owned)
unfolding image_machine
first_claim = refl

second_claim :
    claim "cat" settings 20 claimed_once ≡ (claimed_once, some (record owned { owner = false }))
unfolding image_machine
second_claim = refl

-- A waiter that gives up invalidates the key; the owner's result settles nothing then.
result_lost : is_done 0 (resolve owned "picture" 30 (invalidate "cat" claimed_once)) ≡ false
unfolding image_machine
result_lost = refl

abbrev is_cancelled : String → Bool
is_cancelled text = text == "cancelled"

reached : Reach claimed_once (("cat", 0) ∷ [])
unfolding image_machine
reached = claims "cat" settings 10 nothing [] start

one_owner_example :
    (◌≡◌ {A = ℕ} 0 0)
    × (entry : Entry) × (get "cat" claimed_once.entries ≡ some entry)
    × (entry.future ≡ 0)
    × (is_complete entry ≡ false)
unfolding image_machine
one_owner_example = one_owner claimed_once (("cat", 0) ∷ []) "cat" 0 0 reached refl refl refl refl

claim-resolve_example :
    let after = claim "cat" settings 330 (resolve owned "picture" 30 claimed_once) in
    (after.1 ≡ some (record { key = "cat"; owner = false; future = 0 }))
    × (get 0 after.0.settled ≡ some (result "picture"))
unfolding image_machine
claim-resolve_example =
    claim-resolve claimed_once (("cat", 0) ∷ []) owned "picture" 30 330 settings reached refl refl
      (omega arith)

claim-reject_example :
    let after = claim "cat" settings 40 (reject is_cancelled owned "cancelled" claimed_once) in
    (get 0 after.0.settled ≡ some was_cancelled)
    × ((after.1 ≡ none)
        ⊎ ((fresh : ℕ) × (after.1 ≡ some (record { key = "cat"; owner = true; future = fresh }))
            × ((fresh == 0) ≡ false)))
unfolding image_machine
claim-reject_example =
    claim-reject claimed_once (("cat", 0) ∷ []) is_cancelled owned "cancelled" 40 settings reached
      refl refl

claim-refused_example :
    let entries = (claim "dog" settings 20 claimed_once).0.entries in
    (get "dog" entries ≡ none)
    × (1 ≤ length entries)
    × (1 ≤ length entries)
    × (all (λ (x : String × Entry). not (is_complete x.1) && not (is_abandoned 60 20 x.1)) entries
        ≡ true)
unfolding image_machine
claim-refused_example = claim-refused claimed_once (("cat", 0) ∷ []) "dog" settings 20 reached refl

-- The waiter that gives up withdraws the claim.
withdrawn : Reach (invalidate "cat" claimed_once) []
unfolding image_machine without
withdrawn = withdraws "cat" claimed_once (("cat", 0) ∷ []) reached

room_for_one : length (claim "cat" settings 10 nothing).0.entries ≤ max 1 0
room_for_one = length-claim "cat" settings 10 nothing

told_again :
    let told = resolve owned "picture" 30 claimed_once in
    (get 0 (claim "cat" settings 400 told).0.settled ≡ some (result "picture"))
    × (get 0 (resolve owned "other" 400 told).settled ≡ some (result "picture"))
    × (get 0 (reject is_cancelled owned "cancelled" told).settled ≡ some (result "picture"))
unfolding image_machine
told_again =
    settled_for_good "cat" settings 400 owned "other" is_cancelled "cancelled" 0 (result "picture")
      (resolve owned "picture" 30 claimed_once) refl
