-- ===== src/Images/Claims.antt =====
-- The ways in which a claim ends, how many entries it leaves, and when it is refused.
use llm_aio_gateway.Prelude.{
  ℕ, ◌≤◌, ◌<◌, max, ◌≡◌, refl, sym, ap, ◌∙◌, ◌⊎◌, inl, inr, String, true, false, Option, none, some,
  List, nat_eq, string_eq, leb, length, arith, Bool-cases, Option-cases,
}
use llm_aio_gateway.Dict.{get}
use llm_aio_gateway.Images.Defs.{
  Entry, Invocations, Claim, Settings, is_complete, completed, sort_by_time, drop_old,
  make_room_for, add_entry, claim,
}
use llm_aio_gateway.Images.Keys.{is_listed-sort, completed_lem}
use llm_aio_gateway.Images.Room.{
  length-put, make_room_left, length-drop_old, length-make_room, get-make_room,
}
use llm_aio_gateway.Images.Dropping.{IsTracked, drop_old-IsTracked}

module _ {V E : Type 0} where
  -- The three ways in which a claim ends.
  pub claim_cases :
      (k : String) (c : Settings) (now : ℕ) (s : Invocations V E)
      → let limit = max 1 c.max_entries in
        let s1 = drop_old (max 1 c.ttl_seconds) c.inflight_max_age_seconds now s in
        let s2 = make_room_for limit s1 in
        ((entry : Entry) × (get k s1.entries ≡ some entry)
          × (claim k c now s
              ≡ (s1, some (record { key = k; owner = false; future = entry.future }))))
        ⊎ ((get k s1.entries ≡ none)
            × (leb limit (length s2.entries) ≡ true)
            × (claim k c now s ≡ (s2, none)))
        ⊎ ((get k s1.entries ≡ none)
            × (leb limit (length s2.entries) ≡ false)
            × (claim k c now s ≡ (
              add_entry k now s2,
              some (record { key = k; owner = true; future = s2.next_future }),
            )))
  unfolding claim
  claim_cases k c now s =
      let limit = max 1 c.max_entries in
      let s1 = drop_old (max 1 c.ttl_seconds) c.inflight_max_age_seconds now s in
      let s2 = make_room_for limit s1 in
      elim (Option-cases (get k s1.entries)) [
        | inr (entry, found) ↦ inl (entry, found, rw (found, claim) refl)
        | inl missing ↦ elim (Bool-cases (leb limit (length s2.entries))) [
          | inl full ↦ inr (inl (missing, full, rw (missing, claim) (rw full refl)))
          | inr free ↦ inr (inr (missing, free, rw (missing, claim) (rw free refl)))
        ]
      ]

  -- A claim leaves no more entries than its limit, unless there were more before.
  pub length-claim :
      (k : String) (c : Settings) (now : ℕ) (s : Invocations V E)
      → length (claim k c now s).0.entries ≤ max (max 1 c.max_entries) (length s.entries)
  unfolding make_room_for
  length-claim k c now s =
      let s1 = drop_old (max 1 c.ttl_seconds) c.inflight_max_age_seconds now s in
      let old = length-drop_old (max 1 c.ttl_seconds) c.inflight_max_age_seconds now s in
      let s2 = make_room_for (max 1 c.max_entries) s1 in
      let new : Entry = record { future = s2.next_future; created_at = now; completed_at = none } in
      let few : leb (max 1 c.max_entries) (length s2.entries) ≡ false
          → length s2.entries < max 1 c.max_entries =
        λ h. ground (arith, h) in
      let room = length-make_room (max 1 c.max_entries) (sort_by_time (completed s1.entries)) s1 in
      elim (claim_cases k c now s) [
        | inl (entry, found, eq) ↦ rw eq (omega (arith, old))
        | inr (inl (missing, full, eq)) ↦ rw eq (omega (arith, old, room))
        | inr (inr (missing, free, eq)) ↦
            rw eq (omega (arith, length-put k new s2.entries, few free))
      ]

  -- A claim is refused only if its key has no entry and there are as many as the limit at least.
  pub claim_full :
      (k : String) (c : Settings) (now : ℕ) (s : Invocations V E)
      → (claim k c now s).1 ≡ none
      → (max 1 c.max_entries ≤ length (claim k c now s).0.entries)
        × (get k (claim k c now s).0.entries ≡ none)
  unfolding make_room_for
  claim_full k c now s refused =
      let s1 = drop_old (max 1 c.ttl_seconds) c.inflight_max_age_seconds now s in
      let limit = max 1 c.max_entries in
      elim (claim_cases k c now s) [
        | inl (e, _, eq) ↦
            absurd (ground (arith, refused, ap (λ (x : Invocations V E × Option Claim). x.1) eq))
        | inr (inr (_, _, eq)) ↦
            absurd (ground (arith, refused, ap (λ (x : Invocations V E × Option Claim). x.1) eq))
        | inr (inl (missing, full, eq)) ↦ rw eq (
          ground (arith, full),
          elim (Option-cases (get k (make_room_for limit s1).entries)) [
            | inl gone ↦ gone
            | inr (e, there) ↦ absurd (
                ground (
                  arith,
                  missing,
                  get-make_room limit (sort_by_time (completed s1.entries)) s1 k e there,
                ))
          ],
        )
      ]

  -- The entries that are left then are in flight.
  pub refused_in_flight :
      (k j : String) (c : Settings) (now : ℕ) (s : Invocations V E) (cs : List (String × ℕ))
      (entry : Entry)
      → IsTracked s cs
      → (claim k c now s).1 ≡ none
      → get j (claim k c now s).0.entries ≡ some entry
      → is_complete entry ≡ false
  unfolding make_room_for
  refused_in_flight k j c now s cs entry t refused found =
      let limit = max 1 c.max_entries in
      let s1 = drop_old (max 1 c.ttl_seconds) c.inflight_max_age_seconds now s in
      elim (claim_cases k c now s) [
        | inl (e, _, eq) ↦
            absurd (ground (arith, refused, ap (λ (x : Invocations V E × Option Claim). x.1) eq))
        | inr (inr (_, _, eq)) ↦
            absurd (ground (arith, refused, ap (λ (x : Invocations V E × Option Claim). x.1) eq))
        | inr (inl (missing, full, eq)) ↦
            let left =
              make_room_left limit (sort_by_time (completed s1.entries)) s1 j entry
                (ground (arith, full))
                (ap (λ (x : Invocations V E × Option Claim). get j x.0.entries) (sym eq) ∙ found) in
            sym
              (completed_lem s1.entries j entry (drop_old-IsTracked _ _ now s cs t).distinct left.0)
            ∙ sym (is_listed-sort j (completed s1.entries))
            ∙ left.1
      ]
