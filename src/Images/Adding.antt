-- ===== src/Images/Adding.antt =====
-- A claim joins an entry or adds one, and no owner's future is lost that is not settled.
use llm_aio_gateway.Prelude.{
  ℕ, ◌<◌, max, ◌≡◌, ap, subst, inl, inr, String, ◌&&◌, Option, none, some, List, ◌∷◌, ◌==◌, nat_eq,
  string_eq, beq_self, arith, Bool-cases, Option-cases,
}
use llm_aio_gateway.Dict.{get, keys, get-put, keys-put, AreDistinct-add_key}
use llm_aio_gateway.Images.Defs.{
  Entry, Invocations, Claim, Settings, completed, sort_by_time, is_done, drop_old, make_room_for,
  add_entry, claim,
}
use llm_aio_gateway.Images.Keys.{get_of_put}
use llm_aio_gateway.Images.Room.{make_room_for-IsTracked, get-make_room}
use llm_aio_gateway.Images.Claims.{claim_cases}
use llm_aio_gateway.Images.Dropping.{IsTracked, is_claimed, drop_old-IsTracked}

-- The claims after one more.
unfoldable pub with_claim : Option Claim → List (String × ℕ) → List (String × ℕ)
with_claim none cs = cs
with_claim (some c) cs = (c.key, c.future) ∷ cs

module _ {V E : Type 0} where
  -- A claim that joins an entry.
  join-IsTracked :
      (k : String) (entry : Entry) (s : Invocations V E) (cs : List (String × ℕ))
      → get k s.entries ≡ some entry
      → IsTracked s cs
      → IsTracked s ((k, entry.future) ∷ cs)
  unfolding is_claimed
  join-IsTracked k entry s cs here t = record {
    known = t.known;
    known_done = t.known_done;
    timely = t.timely;
    apart = t.apart;
    distinct = t.distinct;
    known_claim = λ j f claimed. elim (Bool-cases (k == j && entry.future == f)) [
      | inl new ↦
          subst (λ n. n < s.next_future) ((nat_eq.beq_iff entry.future f).0 (ground (arith, new)))
            (t.known k entry here)
      | inr old ↦ t.known_claim j f (ground (arith, claimed, old))
    ];
    kept = λ j f claimed waits. elim (Bool-cases (k == j && entry.future == f)) [
      | inl new ↦ (
        entry,
        subst (λ i. get i s.entries ≡ some entry) ((string_eq.beq_iff k j).0 (ground (arith, new)))
            here,
        (nat_eq.beq_iff entry.future f).0 (ground (arith, new)),
      )
      | inr old ↦ t.kept j f (ground (arith, claimed, old)) waits
    ];
  }

  -- A claim that adds an entry.
  add_entry-IsTracked :
      (k : String) (now : ℕ) (s : Invocations V E) (cs : List (String × ℕ))
      → get k s.entries ≡ none
      → IsTracked s cs
      → IsTracked (add_entry k now s) cs
  unfolding is_done
  add_entry-IsTracked k now s cs missing t =
      let new : Entry = record { future = s.next_future; created_at = now; completed_at = none } in
      record {
        known = λ j entry found. elim (get_of_put k j new entry s.entries found) [
          | inl (_, eq) ↦ rw eq (omega arith)
          | inr (_, old) ↦ omega (arith, t.known j entry old)
        ];
        known_done = λ f done. omega (arith, t.known_done f done);
        known_claim = λ j f claimed. omega (arith, t.known_claim j f claimed);
        timely = λ j entry found. elim (get_of_put k j new entry s.entries found) [
          | inl (_, eq) ↦ rw eq (elim (Bool-cases (is_done s.next_future s)) [
            | inr waits ↦ waits
            | inl done ↦ absurd (omega (arith, t.known_done s.next_future done))
          ])
          | inr (_, old) ↦ t.timely j entry old
        ];
        apart = λ i j a b found found' same. elim (get_of_put k i new a s.entries found) [
          | inl (here, eq) ↦ elim (get_of_put k j new b s.entries found') [
            | inl (there, eq') ↦ ground (
              arith,
              here,
              there,
              string_eq.beq_iff k i,
              string_eq.beq_iff k j,
              string_eq.beq_iff i j,
            )
            | inr (_, old) ↦
                absurd (omega (arith, t.known j b old, same, ap (λ (x : Entry). x.future) eq))
          ]
          | inr (_, old) ↦ elim (get_of_put k j new b s.entries found') [
            | inl (there, eq') ↦
                absurd (omega (arith, t.known i a old, same, ap (λ (x : Entry). x.future) eq'))
            | inr (_, old') ↦ t.apart i j a b old old' same
          ]
        ];
        distinct = rw keys-put (AreDistinct-add_key k (keys s.entries) t.distinct);
        kept = λ j f claimed waits.
            let (entry, found, eq) = t.kept j f claimed waits in
            (
              entry,
              elim (Bool-cases (k == j)) [
                | inr other ↦ rw (get-put, other) found
                | inl same ↦ absurd (ground (arith, missing, found, (string_eq.beq_iff k j).0 same))
              ],
              eq,
            );
      }

  pub claim-IsTracked :
      (k : String) (c : Settings) (now : ℕ) (s : Invocations V E) (cs : List (String × ℕ))
      → IsTracked s cs
      → IsTracked (claim k c now s).0 (with_claim (claim k c now s).1 cs)
  unfolding with_claim make_room_for
  claim-IsTracked k c now s cs t =
      let limit = max 1 c.max_entries in
      let s1 = drop_old (max 1 c.ttl_seconds) c.inflight_max_age_seconds now s in
      let s2 = make_room_for limit s1 in
      let t1 = drop_old-IsTracked (max 1 c.ttl_seconds) c.inflight_max_age_seconds now s cs t in
      let t2 = make_room_for-IsTracked limit s1 cs t1 in
      elim (claim_cases k c now s) [
        | inl (entry, found, eq) ↦ rw eq (join-IsTracked k entry s1 cs found t1)
        | inr (inl (missing, full, eq)) ↦ rw eq t2
        | inr (inr (missing, free, eq)) ↦ rw eq (
            let gone : get k s2.entries ≡ none = elim (Option-cases (get k s2.entries)) [
              | inl none_left ↦ none_left
              | inr (e, there) ↦ absurd (
                  ground (
                    arith,
                    missing,
                    get-make_room limit (sort_by_time (completed s1.entries)) s1 k e there,
                  ))
            ] in
            join-IsTracked k
              (record { future = s2.next_future; created_at = now; completed_at = none })
              (add_entry k now s2) cs
              (ground (
                arith,
                get-put k k
                    (record { future = s2.next_future; created_at = now; completed_at = none })
                    s2.entries,
                beq_self k,
              ))
              (add_entry-IsTracked k now s2 cs gone t2))
      ]
