-- ===== src/Attempts/Fuel.antt =====
-- The tries of the primary target are few, and the fuel never ends.
use llm_aio_gateway.Prelude.{
  ℕ, suc, zero, ◌+◌, ◌≤◌, ◌<◌, ◌≡◌, refl, ◌∙◌, inl, inr, true, ◌&&◌, Option, some, List, [], ◌∷◌,
  ◌++◌, if◌then◌else◌, ltb, Bool-cases, Sum-cases, arith, ◌==◌, string_eq,
}
use llm_aio_gateway.Routing.{RouteTarget, FallbackDecision, apply_fallback_policy}
use llm_aio_gateway.Outcome.{Attempt}
use llm_aio_gateway.Targets.{is_same_target_retryable}
use llm_aio_gateway.Attempts.Defs.{
  Failure, Gateway, Reply, classify, choose_policy, fallback_loop, after_primary, primary_loop,
  call_nonstream_with_fallbacks,
}
use llm_aio_gateway.Attempts.Shape.{
  all_failed, IsEnded, all_failed-append, length-snoc, after_primary-IsEnded,
}

-- How often the primary target was called.
unfoldable pub primary_calls : List Attempt → ℕ
primary_calls [] = 0
primary_calls (a ∷ rest) = (if a.stage == "primary" then 1 else 0) + primary_calls rest

primary_calls-snoc :
    (xs : List Attempt) (a : Attempt)
    → primary_calls (xs ++ (a ∷ [])) ≡ primary_calls xs + (if a.stage == "primary" then 1 else 0)
unfolding primary_calls
primary_calls-snoc [] a = omega arith
primary_calls-snoc (x ∷ xs) a = omega (arith, primary_calls-snoc xs a)

module _ {S Out : Type 0} (g : Gateway S Out) where
  fallback_loop-primary_calls :
      (ts : List RouteTarget) (index time_limit : ℕ) (last : Failure) (attempts : List Attempt)
      (s : S)
      → primary_calls (fallback_loop g ts index time_limit last attempts s).1.attempts
        ≡ primary_calls attempts
  unfolding fallback_loop
  fallback_loop-primary_calls [] index time_limit last attempts s = refl
  fallback_loop-primary_calls (t ∷ ts) index time_limit last attempts s =
      elim (Sum-cases (g.call "fallback" t time_limit s).1) [
        | inl (output, eq) ↦ rw (eq, fallback_loop) (rw primary_calls-snoc (omega arith))
        | inr (e, eq) ↦
            rw (eq, fallback_loop)
              (fallback_loop-primary_calls ts (suc index) time_limit e _ _
                ∙ primary_calls-snoc attempts _
                ∙ omega arith)
      ]

  after_primary-primary_calls :
      (budget : FallbackDecision) (primary : RouteTarget) (e : Failure) (attempts : List Attempt)
      (s : S)
      → primary_calls (after_primary g budget primary e attempts s).1.attempts
        ≡ primary_calls attempts
  unfolding after_primary
  after_primary-primary_calls budget primary e attempts s =
      elim (Bool-cases ((choose_policy g budget primary (classify g e)).matched)) [
        | inr unmatched ↦ rw unmatched refl
        | inl matched ↦ rw matched (fallback_loop-primary_calls _ 1 _ e attempts s)
      ]

  -- There is a reply, it is ended, and the primary target was called so often at most.
  abbrev HasReply : Option (Reply Out) → Type 0
  HasReply result =
      (reply : Reply Out) × (result ≡ some reply)
      × IsEnded reply
      × (primary_calls reply.attempts ≤ suc g.retry_limit)

  primary_loop-HasReply :
      (fuel : ℕ) (budget : FallbackDecision) (primary : RouteTarget) (retries : ℕ)
      (attempts : List Attempt) (s : S)
      → all_failed attempts ≡ true
      → primary_calls attempts ≡ retries
      → retries ≤ g.retry_limit
      → g.retry_limit < fuel + retries
      → HasReply (primary_loop g fuel budget primary retries attempts s).1
  unfolding primary_loop
  primary_loop-HasReply zero budget primary retries attempts s h c few enough =
      absurd (omega (arith, few, enough))
  primary_loop-HasReply (suc fuel) budget primary retries attempts s h c few enough =
      elim (Sum-cases
        (g.call "primary" primary (if budget.matched then budget.attempt_timeout else 0) s).1) [
          | inl (output, eq) ↦
              rw (eq, primary_loop, HasReply)
                (
                  _,
                  refl,
                  (attempts, _, refl, h, refl, refl, inl (refl, refl, refl)),
                  rw primary_calls-snoc (omega (arith, c, few)),
                )
          | inr (e, eq) ↦
              rw (eq, primary_loop, HasReply)
                (elim (Bool-cases (
                  is_same_target_retryable (e.0) (e.1) (classify g e)
                  && ltb retries g.retry_limit)) [
                    | inl again ↦ rw again (
                        primary_loop-HasReply fuel budget primary (suc retries) _ _
                          (all_failed-append attempts _ h refl)
                          (primary_calls-snoc attempts _ ∙ omega (arith, c)) (ground arith)
                          (omega (arith, enough)))
                    | inr over ↦ rw over (
                      _,
                      refl,
                      after_primary-IsEnded g budget primary e _ _
                          (all_failed-append attempts _ h refl) (length-snoc attempts _),
                      rw (after_primary-primary_calls, primary_calls-snoc) (omega (arith, c, few)),
                    )
                  ])
        ]

  -- A request that is not streamed always ends with a reply. The primary target is called once and
  -- then at most `retry_limit` times more. An output comes from the last attempt, the only success,
  -- and its details tell whether the target was a fallback, and which; an error comes after failed
  -- attempts only, at least one.
  pub call_nonstream_with_fallbacks_lem :
      (requested : RouteTarget) (s : S)
      → (reply : Reply Out) × ((call_nonstream_with_fallbacks g requested s).1 ≡ some reply)
        × IsEnded reply
        × (primary_calls reply.attempts ≤ suc g.retry_limit)
  unfolding call_nonstream_with_fallbacks primary_calls
  call_nonstream_with_fallbacks_lem requested s =
      let primary : RouteTarget = record requested { provider_id = g.provider_id_for requested } in
      let budget = apply_fallback_policy g.same primary.provider_id primary.model "" g.policies in
      primary_loop-HasReply (suc g.retry_limit) budget primary 0 [] s refl refl (omega arith)
        (omega arith)
