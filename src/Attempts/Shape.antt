-- ===== src/Attempts/Shape.antt =====
-- The attempts of a reply: failures, and at the end of an answered request one success.
use llm_aio_gateway.Prelude.{
  ℕ, suc, ◌≡◌, refl, sym, subst, ◌⊎◌, inl, inr, Bool, true, List, [], ◌∷◌, ◌++◌, ltb, all,
  Bool-cases, Sum-cases, arith, ◌==◌, string_eq, length,
}
use llm_aio_gateway.Routing.{RouteTarget, FallbackDecision}
use llm_aio_gateway.Outcome.{Attempt}
use llm_aio_gateway.Targets.{trigger_name}
use llm_aio_gateway.Attempts.Defs.{
  Failure, Gateway, Reply, attempt_record, classify, choose_policy, fallback_loop, after_primary,
}

abbrev pub all_failed : List Attempt → Bool
all_failed attempts = all (λ (a : Attempt). a.status == "failed") attempts

-- An answered request: failures, and at the end a success, of the primary target or of the
-- fallback target of the index.
abbrev pub IsAnswered : {Out : Type 0} → Reply Out → Type 0
IsAnswered reply =
    (earlier : List Attempt) × (last : Attempt) × (reply.attempts ≡ earlier ++ (last ∷ []))
    × (all_failed earlier ≡ true)
    × (last.status ≡ "success")
    × (last.index ≡ reply.attempt_index)
    × (((reply.fallback_status ≡ "unused") × (last.stage ≡ "primary") × (reply.attempt_index ≡ 0))
        ⊎ ((reply.fallback_status ≡ "used")
            × (ltb 0 (length earlier) ≡ true)
            × (last.stage ≡ "fallback")
            × (ltb 0 reply.attempt_index ≡ true)))

-- A refused one: failures only, at least one.
abbrev pub IsRefused : {Out : Type 0} → Reply Out → Type 0
IsRefused reply =
    (all_failed reply.attempts ≡ true)
    × (ltb 0 (length reply.attempts) ≡ true)
    × ((reply.fallback_status ≡ "no_policy") ⊎ (reply.fallback_status ≡ "exhausted"))

abbrev pub IsEndedBy : {Out : Type 0} → Reply Out → Out ⊎ Failure → Type 0
IsEndedBy reply (inl output) = IsAnswered reply
IsEndedBy reply (inr e) = IsRefused reply

-- What the attempts of a reply are, by its result.
abbrev pub IsEnded : {Out : Type 0} → Reply Out → Type 0
IsEnded reply = IsEndedBy reply reply.result

pub all_failed-append :
    (xs : List Attempt) (a : Attempt)
    → all_failed xs ≡ true
    → a.status ≡ "failed"
    → all_failed (xs ++ (a ∷ [])) ≡ true
all_failed-append [] a h g = rw g refl
all_failed-append (x ∷ xs) a h g = ground (arith, all_failed-append xs a, h, g)

pub length-snoc : (xs : List Attempt) (a : Attempt) → ltb 0 (length (xs ++ (a ∷ []))) ≡ true
length-snoc [] a = refl
length-snoc (x ∷ xs) a = ground arith

module _ {S Out : Type 0} (g : Gateway S Out) where
  module _ (t : RouteTarget) (ts : List RouteTarget) (index time_limit : ℕ) (last : Failure)
      (attempts : List Attempt) (s : S) where
    -- A fallback target that answers, and one that fails.
    fallback_answer :
        (output : Out)
        → (g.call "fallback" t time_limit s).1 ≡ inl output
        → (fallback_loop g (t ∷ ts) index time_limit last attempts s).1 ≡ record {
          attempts =
              attempts ++ (attempt_record index "fallback" t t.provider_id "success" "" ∷ []);
          fallback_status = "used";
          attempt_index = index;
          result = inl output;
        }
    unfolding fallback_loop
    fallback_answer output eq = rw (eq, fallback_loop) refl

    fallback_failure :
        (e : Failure)
        → (g.call "fallback" t time_limit s).1 ≡ inr e
        → (fallback_loop g (t ∷ ts) index time_limit last attempts s).1
          ≡ (fallback_loop g ts
              (suc index)
              time_limit
              e
              (attempts
                ++ (attempt_record index "fallback" t t.provider_id "failed"
                      (trigger_name (classify g e))
                    ∷ []))
              (g.call "fallback" t time_limit s).0).1
    unfolding fallback_loop
    fallback_failure e eq = rw (eq, fallback_loop) refl

  pub fallback_loop-IsEnded :
      (ts : List RouteTarget) (index time_limit : ℕ) (last : Failure) (attempts : List Attempt)
      (s : S)
      → all_failed attempts ≡ true
      → ltb 0 (length attempts) ≡ true
      → ltb 0 index ≡ true
      → IsEnded (fallback_loop g ts index time_limit last attempts s).1
  unfolding fallback_loop
  fallback_loop-IsEnded [] index time_limit last attempts s h l i = (h, l, inr refl)
  fallback_loop-IsEnded (t ∷ ts) index time_limit last attempts s h l i =
      elim (Sum-cases (g.call "fallback" t time_limit s).1) [
        | inl (output, eq) ↦
            subst IsEnded (sym (fallback_answer t ts index time_limit last attempts s output eq))
              (attempts, _, refl, h, refl, refl, inr (refl, l, refl, i))
        | inr (e, eq) ↦
            subst IsEnded (sym (fallback_failure t ts index time_limit last attempts s e eq)) (
              fallback_loop-IsEnded ts (suc index) time_limit e _ _
                (all_failed-append attempts _ h refl) (length-snoc attempts _) (ground arith))
      ]

  pub after_primary-IsEnded :
      (budget : FallbackDecision) (primary : RouteTarget) (e : Failure) (attempts : List Attempt)
      (s : S)
      → all_failed attempts ≡ true
      → ltb 0 (length attempts) ≡ true
      → IsEnded (after_primary g budget primary e attempts s).1
  unfolding after_primary
  after_primary-IsEnded budget primary e attempts s h l =
      elim (Bool-cases ((choose_policy g budget primary (classify g e)).matched)) [
        | inr unmatched ↦ rw unmatched (h, l, inl refl)
        | inl matched ↦ rw matched (fallback_loop-IsEnded _ 1 _ e attempts s h l refl)
      ]
