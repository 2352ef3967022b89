-- ===== src/Images/Outcomes.antt =====
-- What a future is settled to stays.
use llm_aio_gateway.Prelude.{
  ℕ, max, ◌≡◌, refl, ap, ◌∙◌, inl, inr, String, Bool, some, List, [], ◌∷◌, ◌==◌, nat_eq, string_eq,
  arith, Bool-cases, Option-cases,
}
use llm_aio_gateway.Dict.{get, get-put}
use llm_aio_gateway.Images.Defs.{
  Settled, result, was_abandoned, Invocations, Claim, Settings, is_expired, is_abandoned,
  keys_where, completed, sort_by_time, is_done, settle, invalidate, abandon_one, abandon, drop_all,
  make_room, drop_old, make_room_for, claim, resolve, reject,
}
use llm_aio_gateway.Images.Dropping.{abandon_one_missing, abandon_one_present}
use llm_aio_gateway.Images.Claims.{claim_cases}
use llm_aio_gateway.Images.Settling.{resolve_own, resolve_other, reject_own, reject_other}

module _ {V E : Type 0} where
  -- What a future is settled to is not changed by settling again.
  pub settled-settle :
      (f g : ℕ) (o o' : Settled V E) (s : Invocations V E)
      → get f s.settled ≡ some o
      → get f (settle g o' s).settled ≡ some o
  unfolding settle is_done
  settled-settle f g o o' s here =
      ground (arith, here, get-put g f o' s.settled, nat_eq.beq_iff g f)

  settled-abandon :
      (ks : List String) (f : ℕ) (o : Settled V E) (s : Invocations V E)
      → get f s.settled ≡ some o
      → get f (abandon ks s).settled ≡ some o
  unfolding abandon invalidate
  settled-abandon [] f o s here = here
  settled-abandon (k ∷ ks) f o s here =
      settled-abandon ks f o (abandon_one k s) (elim (Option-cases (get k s.entries)) [
        | inl missing ↦ rw (abandon_one_missing k s missing) here
        | inr (e, there) ↦
            rw (abandon_one_present k s e there)
              (settled-settle f e.future o was_abandoned (invalidate k s) here)
      ])

  settled-drop_all : (ks : List String) (s : Invocations V E) → (drop_all ks s).settled ≡ s.settled
  unfolding drop_all invalidate
  settled-drop_all [] s = refl
  settled-drop_all (k ∷ ks) s = settled-drop_all ks (invalidate k s)

  pub settled-make_room :
      (limit : ℕ) (xs : List (ℕ × String)) (s : Invocations V E)
      → (make_room limit xs s).settled ≡ s.settled
  unfolding make_room invalidate
  settled-make_room limit [] s = refl
  settled-make_room limit ((t, k) ∷ xs) s =
      ground (arith, settled-make_room limit xs (invalidate k s))

  pub settled-drop_old :
      (ttl age now f : ℕ) (o : Settled V E) (s : Invocations V E)
      → get f s.settled ≡ some o
      → get f (drop_old ttl age now s).settled ≡ some o
  unfolding drop_old
  settled-drop_old ttl age now f o s here =
      let abandoned = keys_where (is_abandoned age now) s.entries in
      ap (λ d. get f d)
        (settled-drop_all (keys_where (is_expired ttl now) s.entries) (abandon abandoned s))
      ∙ settled-abandon abandoned f o s here

  pub settled-claim :
      (k : String) (c : Settings) (now f : ℕ) (o : Settled V E) (s : Invocations V E)
      → get f s.settled ≡ some o
      → get f (claim k c now s).0.settled ≡ some o
  unfolding make_room_for
  settled-claim k c now f o s here =
      let s1 = drop_old (max 1 c.ttl_seconds) c.inflight_max_age_seconds now s in
      let old = settled-drop_old (max 1 c.ttl_seconds) c.inflight_max_age_seconds now f o s here in
      let room =
        ap (λ d. get f d)
          (settled-make_room (max 1 c.max_entries) (sort_by_time (completed s1.entries)) s1)
        ∙ old in
      elim (claim_cases k c now s) [
        | inl (entry, found, eq) ↦ rw eq old
        | inr (inl (missing, full, eq)) ↦ rw eq room
        | inr (inr (missing, free, eq)) ↦ rw eq room
      ]

  settled-resolve :
      (c : Claim) (value : V) (now f : ℕ) (o : Settled V E) (s : Invocations V E)
      → get f s.settled ≡ some o
      → get f (resolve c value now s).settled ≡ some o
  settled-resolve c value now f o s here = elim (Option-cases (get c.key s.entries)) [
    | inl missing ↦ rw (resolve_other c value now s (inr missing)) here
    | inr (entry, there) ↦ elim (Bool-cases (entry.future == c.future)) [
      | inr other ↦ rw (resolve_other c value now s (inl (entry, there, other))) here
      | inl own ↦
          rw (resolve_own c value now s entry there own)
            (settled-settle f c.future o (result value) _ here)
    ]
  ]

  settled-reject :
      (is_cancelled : E → Bool) (c : Claim) (exc : E) (f : ℕ) (o : Settled V E)
      (s : Invocations V E)
      → get f s.settled ≡ some o
      → get f (reject is_cancelled c exc s).settled ≡ some o
  unfolding invalidate
  settled-reject is_cancelled c exc f o s here = elim (Option-cases (get c.key s.entries)) [
    | inl missing ↦
        rw (reject_other is_cancelled c exc s (inr missing)) (settled-settle f c.future o _ s here)
    | inr (entry, there) ↦ elim (Bool-cases (entry.future == c.future)) [
      | inr other ↦
          rw (reject_other is_cancelled c exc s (inl (entry, there, other)))
            (settled-settle f c.future o _ s here)
      | inl own ↦
          rw (reject_own is_cancelled c exc s entry there own)
            (settled-settle f c.future o _ (invalidate c.key s) here)
    ]
  ]

  -- A future that is settled keeps its outcome, whatever is claimed, resolved and rejected after it.
  pub settled_for_good :
      (k : String) (c : Settings) (now : ℕ) (owned : Claim) (value : V) (is_cancelled : E → Bool)
      (exc : E) (f : ℕ) (o : Settled V E) (s : Invocations V E)
      → get f s.settled ≡ some o
      → (get f (claim k c now s).0.settled ≡ some o)
        × (get f (resolve owned value now s).settled ≡ some o)
        × (get f (reject is_cancelled owned exc s).settled ≡ some o)
  settled_for_good k c now owned value is_cancelled exc f o s here = (
    settled-claim k c now f o s here,
    settled-resolve owned value now f o s here,
    settled-reject is_cancelled owned exc f o s here,
  )
