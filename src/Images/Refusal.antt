-- ===== src/Images/Refusal.antt =====
-- When a claim is refused.
use llm_aio_gateway.Prelude.{
  true, not, all, ◌&&◌, ℕ, ◌≤◌, max, ◌≡◌, refl, sym, ap, ◌∙◌, inl, inr, String, false, Option, none,
  some, List, [], ◌∷◌, ◌==◌, nat_eq, string_eq, length, arith, Bool-cases, Option-cases,
}
use llm_aio_gateway.Dict.{get, keys, contains, AreDistinct}
use llm_aio_gateway.Images.Defs.{
  was_abandoned, Entry, Invocations, Claim, Settings, is_complete, is_expired, is_abandoned,
  keys_where, completed, sort_by_time, invalidate, abandon_one, abandon, drop_old, make_room_for,
  claim,
}
use llm_aio_gateway.Images.Keys.{all_of_get, get_of_pop, keys_where_lem}
use llm_aio_gateway.Images.Dropping.{
  IsTracked, settle_entries, abandon_one_missing, abandon_one_present, get-abandon,
}
use llm_aio_gateway.Images.Claims.{claim_cases, claim_full, refused_in_flight}
use llm_aio_gateway.Images.Sharing.{Reach, claims, Reach-IsTracked}
use llm_aio_gateway.Images.Reuse.{get-drop_all}
use llm_aio_gateway.Images.Room.{get-make_room}

module _ {V E : Type 0} where
  -- What is abandoned has no entry any more.
  abandoned_gone :
      (ks : List String) (j : String) (s : Invocations V E) (entry : Entry)
      → get j (abandon ks s).entries ≡ some entry
      → contains j ks ≡ false
  unfolding abandon contains invalidate
  abandoned_gone [] j s entry found = refl
  abandoned_gone (k ∷ ks) j s entry found =
      let rest = abandoned_gone ks j (abandon_one k s) entry found in
      let there = get-abandon ks j (abandon_one k s) entry found in
      let other : (k == j) ≡ false = elim (Option-cases (get k s.entries)) [
        | inr (e, here) ↦
            (get_of_pop k j s.entries entry (
              ap (λ d. get j d) (sym (settle_entries e.future was_abandoned (invalidate k s)))
              ∙ ap (λ (x : Invocations V E). get j x.entries) (sym (abandon_one_present k s e here))
              ∙ there)).0
        | inl missing ↦ elim (Bool-cases (k == j)) [
          | inr apart ↦ apart
          | inl same ↦ absurd (
              ground (
                arith,
                missing,
                (string_eq.beq_iff k j).0 same,
                ap (λ (x : Invocations V E). get j x.entries)
                      (sym (abandon_one_missing k s missing))
                    ∙ there,
              ))
        ]
      ] in
      ground (arith, other, rest)

  drop_old-young :
      (ttl age now : ℕ) (j : String) (s : Invocations V E) (entry : Entry)
      → AreDistinct (keys s.entries)
      → get j (drop_old ttl age now s).entries ≡ some entry
      → is_abandoned age now entry ≡ false
  unfolding drop_old
  drop_old-young ttl age now j s entry apart found =
      let abandoned = keys_where (is_abandoned age now) s.entries in
      let kept =
        get-drop_all (keys_where (is_expired ttl now) s.entries) j (abandon abandoned s) entry
          found in
      sym (
        keys_where_lem (is_abandoned age now) s.entries j entry apart
          (get-abandon abandoned j s entry kept))
      ∙ abandoned_gone abandoned j s entry kept

  refused_young :
      (s : Invocations V E) (cs : List (String × ℕ)) (k j : String) (c : Settings) (now : ℕ)
      (entry : Entry)
      → IsTracked s cs
      → (claim k c now s).1 ≡ none
      → get j (claim k c now s).0.entries ≡ some entry
      → is_abandoned c.inflight_max_age_seconds now entry ≡ false
  unfolding make_room_for
  refused_young s cs k j c now entry t refused found =
      let s1 = drop_old (max 1 c.ttl_seconds) c.inflight_max_age_seconds now s in
      drop_old-young (max 1 c.ttl_seconds) c.inflight_max_age_seconds now j s entry t.distinct
        (elim (claim_cases k c now s) [
          | inl (e, _, eq) ↦
              absurd (ground (arith, refused, ap (λ (x : Invocations V E × Option Claim). x.1) eq))
          | inr (inr (_, _, eq)) ↦
              absurd (ground (arith, refused, ap (λ (x : Invocations V E × Option Claim). x.1) eq))
          | inr (inl (_, _, eq)) ↦
              get-make_room (max 1 c.max_entries) (sort_by_time (completed s1.entries)) s1 j entry
                (ap (λ (x : Invocations V E × Option Claim). get j x.0.entries) (sym eq) ∙ found)
        ])

  -- However the cache was used: a claim is refused only if its key has no entry and there are as many
  -- entries as the limit allows, which is at least one, each of them in flight and not too old.
  pub claim-refused :
      (s : Invocations V E) (cs : List (String × ℕ)) (k : String) (c : Settings) (now : ℕ)
      → Reach s cs
      → (claim k c now s).1 ≡ none
      → let entries = (claim k c now s).0.entries in
        (get k entries ≡ none)
        × (1 ≤ length entries)
        × (c.max_entries ≤ length entries)
        × (all
              (λ (x : String × Entry).
                not (is_complete x.1) && not (is_abandoned c.inflight_max_age_seconds now x.1))
              entries
            ≡ true)
  claim-refused s cs k c now r refused =
      let t = Reach-IsTracked s cs r in
      let (full, gone) = claim_full k c now s refused in
      (
        gone,
        omega (arith, full),
        omega (arith, full),
        all_of_get (λ e. not (is_complete e) && not (is_abandoned c.inflight_max_age_seconds now e))
            (claim k c now s).0.entries (Reach-IsTracked _ _ (claims k c now s cs r)).distinct
            (λ j e found. ground (
              arith,
              refused_in_flight k j c now s cs e t refused found,
              refused_young s cs k j c now e t refused found,
            )),
      )
