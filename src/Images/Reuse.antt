-- ===== src/Images/Reuse.antt =====
-- A result is reused until it is too old, and an error is not.
use llm_aio_gateway.Prelude.{
  ℕ, ◌+◌, ◌≤◌, max, ◌≡◌, refl, ap, ◌∙◌, ◌⊎◌, inl, inr, String, Bool, true, false, none, some, List,
  [], ◌∷◌, ◌==◌, nat_eq, string_eq, beq_self, arith, Option-cases,
}
use llm_aio_gateway.Dict.{get, put, keys, contains, get-put, get-pop, AreDistinct}
use llm_aio_gateway.Images.Defs.{
  Settled, result, Entry, Invocations, Claim, Settings, is_expired, is_abandoned, keys_where,
  completed, sort_by_time, is_done, settle, invalidate, abandon_one, abandon, drop_all, drop_old,
  make_room_for, claim, resolve, reject,
}
use llm_aio_gateway.Images.Keys.{get_of_pop, keys_where_lem}
use llm_aio_gateway.Images.Dropping.{
  IsTracked, is_claimed, settle_entries, abandon_one_missing, abandon_one_present, get-abandon,
  drop_old-IsTracked,
}
use llm_aio_gateway.Images.Claims.{claim_cases}
use llm_aio_gateway.Images.Settling.{
  resolve_own, reject_own, outcome_of, resolve-IsTracked, reject-IsTracked,
}
use llm_aio_gateway.Images.Outcomes.{settled-claim, settled-drop_old, settled-make_room}
use llm_aio_gateway.Images.Room.{make_room_for-IsTracked}
use llm_aio_gateway.Images.Sharing.{Reach, Reach-IsTracked}

module _ {V E : Type 0} where
  get-abandon_other :
      (ks : List String) (k : String) (s : Invocations V E)
      → contains k ks ≡ false
      → get k (abandon ks s).entries ≡ get k s.entries
  unfolding abandon contains invalidate
  get-abandon_other [] k s apart = refl
  get-abandon_other (j ∷ ks) k s apart =
      get-abandon_other ks k (abandon_one j s) (ground (arith, apart))
      ∙ elim (Option-cases (get j s.entries)) [
        | inl missing ↦ rw (abandon_one_missing j s missing) refl
        | inr (e, there) ↦
            rw (abandon_one_present j s e there, settle_entries, get-pop) (ground (arith, apart))
      ]

  get-drop_all_other :
      (ks : List String) (k : String) (s : Invocations V E)
      → contains k ks ≡ false
      → get k (drop_all ks s).entries ≡ get k s.entries
  unfolding drop_all contains invalidate
  get-drop_all_other [] k s apart = refl
  get-drop_all_other (j ∷ ks) k s apart =
      get-drop_all_other ks k (invalidate j s) (ground (arith, apart))
      ∙ rw get-pop (ground (arith, apart))

  -- An entry that is not too old is kept.
  get-drop_old :
      (ttl age now : ℕ) (k : String) (s : Invocations V E) (entry : Entry)
      → AreDistinct (keys s.entries)
      → get k s.entries ≡ some entry
      → is_expired ttl now entry ≡ false
      → is_abandoned age now entry ≡ false
      → get k (drop_old ttl age now s).entries ≡ some entry
  unfolding drop_old
  get-drop_old ttl age now k s entry apart here fresh young =
      let expired = keys_where (is_expired ttl now) s.entries in
      let abandoned = keys_where (is_abandoned age now) s.entries in
      get-drop_all_other expired k (abandon abandoned s)
        (keys_where_lem (is_expired ttl now) s.entries k entry apart here ∙ fresh)
      ∙ get-abandon_other abandoned k s
          (keys_where_lem (is_abandoned age now) s.entries k entry apart here ∙ young)
      ∙ here

  -- A claim of a key whose entry is not too old joins it.
  claim-joins :
      (k : String) (c : Settings) (now : ℕ) (s : Invocations V E) (entry : Entry)
      → AreDistinct (keys s.entries)
      → get k s.entries ≡ some entry
      → is_expired (max 1 c.ttl_seconds) now entry ≡ false
      → is_abandoned c.inflight_max_age_seconds now entry ≡ false
      → (claim k c now s).1 ≡ some (record { key = k; owner = false; future = entry.future })
  claim-joins k c now s entry apart here fresh young =
      let kept =
        get-drop_old (max 1 c.ttl_seconds) c.inflight_max_age_seconds now k s entry apart here fresh
          young in
      elim (claim_cases k c now s) [
        | inl (e, found, eq) ↦ rw eq (ground (arith, kept, found))
        | inr (inl (missing, full, eq)) ↦ absurd (ground (arith, kept, missing))
        | inr (inr (missing, free, eq)) ↦ absurd (ground (arith, kept, missing))
      ]

  settle_waiting :
      (f : ℕ) (o : Settled V E) (s : Invocations V E)
      → is_done f s ≡ false
      → get f (settle f o s).settled ≡ some o
  unfolding settle
  settle_waiting f o s waits =
      rw (waits, settle) (ground (arith, get-put f f o s.settled, beq_self f))

  pub get-drop_all :
      (ks : List String) (k : String) (s : Invocations V E) (entry : Entry)
      → get k (drop_all ks s).entries ≡ some entry
      → get k s.entries ≡ some entry
  unfolding drop_all invalidate
  get-drop_all [] k s entry found = found
  get-drop_all (j ∷ ks) k s entry found =
      (get_of_pop j k s.entries entry (get-drop_all ks k (invalidate j s) entry found)).1

  get_of_drop_old :
      (ttl age now : ℕ) (k : String) (s : Invocations V E) (entry : Entry)
      → get k (drop_old ttl age now s).entries ≡ some entry
      → get k s.entries ≡ some entry
  unfolding drop_old
  get_of_drop_old ttl age now k s entry found =
      let abandoned = keys_where (is_abandoned age now) s.entries in
      get-abandon abandoned k s entry (
        get-drop_all (keys_where (is_expired ttl now) s.entries) k (abandon abandoned s) entry
          found)

  done_of_settled :
      (f : ℕ) (o : Settled V E) (s : Invocations V E)
      → get f s.settled ≡ some o
      → is_done f s ≡ true
  unfolding is_done
  done_of_settled f o s here = rw (here, is_done) refl

  -- A claim of a key that has no entry makes a new future, or is refused.
  claim-starts :
      (k : String) (c : Settings) (now f : ℕ) (o : Settled V E) (s : Invocations V E)
      (cs : List (String × ℕ))
      → IsTracked s cs
      → get k s.entries ≡ none
      → get f s.settled ≡ some o
      → ((claim k c now s).1 ≡ none)
        ⊎ ((fresh : ℕ) × ((claim k c now s).1
              ≡ some (record { key = k; owner = true; future = fresh }))
            × ((fresh == f) ≡ false))
  unfolding make_room_for
  claim-starts k c now f o s cs t missing told =
      let limit = max 1 c.max_entries in
      let ttl = max 1 c.ttl_seconds in
      let age = c.inflight_max_age_seconds in
      let s1 = drop_old ttl age now s in
      let s2 = make_room_for limit s1 in
      let t2 = make_room_for-IsTracked limit s1 cs (drop_old-IsTracked ttl age now s cs t) in
      let told2 : get f s2.settled ≡ some o =
        ap (λ d. get f d) (settled-make_room limit (sort_by_time (completed s1.entries)) s1)
        ∙ settled-drop_old ttl age now f o s told in
      elim (claim_cases k c now s) [
        | inl (e, found, eq) ↦
            absurd (ground (arith, missing, get_of_drop_old ttl age now k s e found))
        | inr (inl (gone, full, eq)) ↦ inl (rw eq refl)
        | inr (inr (gone, free, eq)) ↦ inr (
          s2.next_future,
          rw eq refl,
          ground (arith, t2.known_done f (done_of_settled f o s2 told2)),
        )
      ]

  -- However the cache was used: when the owner of a claim that is not settled resolves it, and no
  -- invalidation of its entry in flight and no clearing has withdrawn the claim before, a claim of the key
  -- within the time that results are kept joins it, and finds its value.
  pub claim-resolve :
      (s : Invocations V E) (cs : List (String × ℕ)) (owned : Claim) (value : V) (now later : ℕ)
      (c : Settings)
      → Reach s cs
      → is_claimed owned.key owned.future cs ≡ true
      → is_done owned.future s ≡ false
      → later ≤ now + max 1 c.ttl_seconds
      → let after = claim owned.key c later (resolve owned value now s) in
        (after.1 ≡ some (record { key = owned.key; owner = false; future = owned.future }))
        × (get owned.future after.0.settled ≡ some (result value))
  unfolding is_expired is_abandoned is_done
  claim-resolve s cs owned value now later c r claimed waits soon =
      let s' = resolve owned value now s in
      let t = Reach-IsTracked s cs r in
      let (entry, here, eq) = t.kept owned.key owned.future claimed waits in
      let own : (entry.future == owned.future) ≡ true =
        (nat_eq.beq_iff entry.future owned.future).1 eq in
      let new : Entry = record entry { completed_at = some now } in
      let kept : get owned.key s'.entries ≡ some new =
        rw (resolve_own owned value now s entry here own, settle_entries)
          (ground (arith, get-put owned.key owned.key new s.entries, beq_self owned.key)) in
      let told : get owned.future s'.settled ≡ some (result value) =
        rw (resolve_own owned value now s entry here own) (
          settle_waiting owned.future (result value)
            (record s { entries = put owned.key new s.entries }) waits) in
      (
        claim-joins owned.key c later s' new (resolve-IsTracked owned value now s cs t).distinct
              kept (ground (arith, soon)) (ground arith)
            ∙ rw eq refl,
        settled-claim owned.key c later owned.future (result value) s' told,
      )

  -- However the cache was used: when the owner of a claim that is not settled, and that no invalidation
  -- of its entry in flight and no clearing has withdrawn, rejects it, the error is what those who wait for
  -- it find, and a claim of the key afterwards does not join it: it makes a new owner, or is refused.
  pub claim-reject :
      (s : Invocations V E) (cs : List (String × ℕ)) (is_cancelled : E → Bool) (owned : Claim)
      (exc : E) (later : ℕ) (c : Settings)
      → Reach s cs
      → is_claimed owned.key owned.future cs ≡ true
      → is_done owned.future s ≡ false
      → let after = claim owned.key c later (reject is_cancelled owned exc s) in
        (get owned.future after.0.settled ≡ some (outcome_of is_cancelled exc))
        × ((after.1 ≡ none)
            ⊎ ((fresh : ℕ) × (after.1
                  ≡ some (record { key = owned.key; owner = true; future = fresh }))
                × ((fresh == owned.future) ≡ false)))
  unfolding invalidate is_done
  claim-reject s cs is_cancelled owned exc later c r claimed waits =
      let s' = reject is_cancelled owned exc s in
      let o : Settled V E = outcome_of is_cancelled exc in
      let t = Reach-IsTracked s cs r in
      let (entry, here, eq) = t.kept owned.key owned.future claimed waits in
      let own : (entry.future == owned.future) ≡ true =
        (nat_eq.beq_iff entry.future owned.future).1 eq in
      let gone : get owned.key s'.entries ≡ none =
        rw (reject_own is_cancelled owned exc s entry here own, settle_entries)
          (ground (arith, get-pop owned.key owned.key s.entries, beq_self owned.key)) in
      let told : get owned.future s'.settled ≡ some o =
        rw (reject_own is_cancelled owned exc s entry here own)
          (settle_waiting owned.future o (invalidate owned.key s) waits) in
      (
        settled-claim owned.key c later owned.future o s' told,
        claim-starts owned.key c later owned.future o s' cs
            (reject-IsTracked is_cancelled owned exc s cs t claimed) gone told,
      )
