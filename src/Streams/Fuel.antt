-- ===== src/Streams/Fuel.antt =====
-- The tries of a target end, and so do the targets.
use llm_aio_gateway.Prelude.{
  ℕ, suc, zero, ◌+◌, ◌-◌, ◌<◌, ◌≡◌, refl, ◌⊎◌, inl, inr, true, ◌&&◌, Option, some, List, [], ◌∷◌,
  if◌then◌else◌, ltb, Bool-cases, arith, nat_eq, string_eq,
}
use llm_aio_gateway.Dict.{Dict, get, put, get_or, get-put}
use llm_aio_gateway.Routing.{RouteTarget, FallbackDecision, apply_fallback_policy}
use llm_aio_gateway.Targets.{is_same_target_retryable, target_identity, Identity}
use llm_aio_gateway.Attempts.Defs.{Gateway, classify, choose_policy}
use llm_aio_gateway.Streams.Opened.{Run, StreamFailure, used_status}
use llm_aio_gateway.Streams.Defs.{
  identity_eq, Progress, Verdict, answered, cut, gave_up, StreamReply, attempt_stream, advance,
  try_target, tries, rest_loop, after_first, no_progress, stream_events_with_fallbacks,
}
use llm_aio_gateway.Streams.Replies.{
  IsFruitless, IsDone, IsCutShort, IsGivenUp, IsStreamed, attempt_stream_lem, advance-IsDone,
  attempt_stream-IsTold, given_up-IsFruitless, advance-IsCutShort, advance-IsGivenUp,
}
use llm_aio_gateway.Streams.Shape.{passed_events, IsSilent}

get_or-put : (k : Identity) (n : ℕ) (d : Dict Identity ℕ) → get_or 0 (get k (put k n d)) ≡ n
get_or-put k n d = rw get-put (ground (arith, identity_eq.beq_iff k k))

module _ {S : Type 0} (g : Gateway S Run) where
  -- The three verdicts on a target.
  abbrev HasVerdict : ℕ → Option (Progress × Verdict) → Type 0
  HasVerdict index result =
      ((p : Progress) × (result ≡ some (p, answered)) × IsDone g index p)
      ⊎ ((p : Progress) × (e : StreamFailure) × (result ≡ some (p, cut e)) × IsCutShort g p)
      ⊎ ((p : Progress) × (e : StreamFailure) × (result ≡ some (p, gave_up e)) × IsGivenUp g p)

  -- What is left of the tries of a target after those that are counted.
  unfoldable tries_left : Identity → Progress → ℕ
  tries_left key p =
      (1 - get_or 0 (get key p.degenerate_retries))
      + (g.retry_limit - get_or 0 (get key p.same_target_retries))

  tries_left_degenerate :
      (key : Identity) (p : Progress)
      → get_or 0 (get key p.degenerate_retries) < 1
      → tries_left key (record p {
        degenerate_retries =
            put key (suc (get_or 0 (get key p.degenerate_retries))) p.degenerate_retries;
      })
        < tries_left key p
  unfolding tries_left
  tries_left_degenerate key p few = rw get_or-put (omega (arith, few))

  tries_left_same :
      (key : Identity) (p : Progress)
      → get_or 0 (get key p.same_target_retries) < g.retry_limit
      → tries_left key (record p {
        same_target_retries =
            put key (suc (get_or 0 (get key p.same_target_retries))) p.same_target_retries;
      })
        < tries_left key p
  unfolding tries_left
  tries_left_same key p few = rw get_or-put (omega (arith, few))

  -- A silent failure, with the tries that are left given.
  silent_try :
      (fuel index : ℕ) (t : RouteTarget) (limit : ℕ) (p : Progress) (s : S)
      → IsFruitless g index p
      → tries_left (target_identity g.provider_of_model t) p < suc fuel
      → IsSilent (attempt_stream g index t limit p.attempts s).1
      → ((q : Progress) (r : S)
          → IsFruitless g index q
          → tries_left (target_identity g.provider_of_model t) q < fuel
          → HasVerdict index (try_target g fuel index t limit q r).1)
      → HasVerdict index (try_target g (suc fuel) index t limit p s).1
  unfolding try_target tries_left
  silent_try fuel index t limit p s none_yet enough (e, bad, none_out, silent) again =
      let key = target_identity g.provider_of_model t in
      let (s', a) = attempt_stream g index t limit p.attempts s in
      let p' = advance g index t a p in
      let given_up = advance-IsGivenUp g index t a p none_yet (e, bad, none_out, silent) in
      let fruitless = given_up-IsFruitless g index p' given_up in
      rw (bad, none_out, try_target)
        (elim (Bool-cases
          (ltb 0 index && e.is_degenerate && ltb (get_or 0 (get key p'.degenerate_retries)) 1)) [
            | inl degenerate ↦ rw degenerate (
                again _ s' fruitless
                  (omega (arith, enough, tries_left_degenerate key p (ground (arith, degenerate)))))
            | inr other ↦
                rw other
                  (elim (Bool-cases (
                    is_same_target_retryable (e.failure.0) (e.failure.1) (classify g e.failure)
                    && ltb (get_or 0 (get key p'.same_target_retries)) g.retry_limit)) [
                      | inl same ↦ rw same (
                          again _ s' fruitless
                            (omega (arith, enough, tries_left_same key p (ground (arith, same)))))
                      | inr over ↦ rw over (inr (inr (p', e, refl, given_up)))
                    ])
          ])

  try_target-HasVerdict :
      (fuel index : ℕ) (t : RouteTarget) (limit : ℕ) (p : Progress) (s : S)
      → IsFruitless g index p
      → tries_left (target_identity g.provider_of_model t) p < fuel
      → HasVerdict index (try_target g fuel index t limit p s).1
  unfolding try_target advance
  try_target-HasVerdict zero index t limit p s none_yet enough = absurd (omega (arith, enough))
  try_target-HasVerdict (suc fuel) index t limit p s none_yet enough =
      elim (attempt_stream_lem g index t limit p.attempts s) [
        | inl (run, sent_by, inl (well, _, all_of, seen)) ↦
            rw (well, try_target)
              (inl (
                _,
                refl,
                advance-IsDone g index t (attempt_stream g index t limit p.attempts s).1 p run
                    none_yet sent_by well all_of seen
                    (attempt_stream-IsTold g index t limit p.attempts s well),
              ))
        | inl (run, sent_by, inr (inl (e, bad, going, part, seen))) ↦
            rw (bad, going, try_target)
              (inr (
                inl (
                  _,
                  e,
                  refl,
                  advance-IsCutShort g index t (attempt_stream g index t limit p.attempts s).1 p run
                      e none_yet sent_by bad part seen,
                )))
        | inl (run, sent_by, inr (inr silent)) ↦
            silent_try fuel index t limit p s none_yet enough silent
              (λ q r. try_target-HasVerdict fuel index t limit q r)
        | inr silent ↦
            silent_try fuel index t limit p s none_yet enough silent
              (λ q r. try_target-HasVerdict fuel index t limit q r)
      ]

  abbrev HasStreamReply : S × Option StreamReply → Type 0
  HasStreamReply result = (reply : StreamReply) × (result.1 ≡ some reply) × IsStreamed g reply

  tries_left-tries : (key : Identity) (p : Progress) → tries_left key p < tries g
  unfolding tries_left
  tries_left-tries key p = omega arith

  used : (index : ℕ) → ltb 0 index ≡ true → used_status index ≡ "used"
  used zero later = absurd (ground arith)
  used (suc index) later = refl

  rest_loop-HasStreamReply :
      (ts : List RouteTarget) (index limit : ℕ) (last : StreamFailure) (p : Progress) (s : S)
      → ltb 0 index ≡ true
      → IsGivenUp g p
      → HasStreamReply (rest_loop g ts index limit last p s)
  unfolding rest_loop
  rest_loop-HasStreamReply [] index limit last p s later given_up =
      (_, refl, inr (inr refl, given_up))
  rest_loop-HasStreamReply (t ∷ ts) index limit last p s later given_up =
      elim (try_target-HasVerdict (tries g) index t limit p s
        (given_up-IsFruitless g index p given_up) (tries_left-tries _ p)) [
          | inl (q, eq, done) ↦
              rw (eq, rest_loop) (_, refl, inr (used index later, (index, later, done)))
          | inr (inl (q, e, eq, short)) ↦ rw (eq, rest_loop) (_, refl, inl (refl, short))
          | inr (inr (q, e, eq, over)) ↦
              rw (eq, rest_loop)
                (rest_loop-HasStreamReply ts (suc index) limit e q _ (ground arith) over)
        ]

  after_first-HasStreamReply :
      (budget : FallbackDecision) (primary : RouteTarget) (e : StreamFailure) (p : Progress) (s : S)
      → IsGivenUp g p
      → HasStreamReply (after_first g budget primary e p s)
  unfolding after_first
  after_first-HasStreamReply budget primary e p s given_up =
      elim (Bool-cases ((choose_policy g budget primary (classify g e.failure)).matched)) [
        | inl matched ↦ rw matched (rest_loop-HasStreamReply _ 1 _ e p s refl given_up)
        | inr unmatched ↦ rw unmatched (_, refl, inr (inl refl, given_up))
      ]

  -- A streamed request always ends. If it is answered, its last attempt is its only success, and the
  -- details tell whether that was a fallback, as
  -- the metadata do that the caller is given before the end of the message; the client has seen all that this one run shows,
  -- something visible in it, and nothing of the attempts before. If an attempt fails once an output
  -- was passed on, no other is made, and the client has seen a part of that run alone. Else each
  -- attempt failed, there was at least one, and the client has seen no event.
  pub stream_events_with_fallbacks_lem :
      (requested : RouteTarget) (s : S)
      → (reply : StreamReply) × ((stream_events_with_fallbacks g requested s).1 ≡ some reply)
        × IsStreamed g reply
  unfolding stream_events_with_fallbacks passed_events
  stream_events_with_fallbacks_lem requested s =
      let primary : RouteTarget = record requested { provider_id = g.provider_id_for requested } in
      let budget = apply_fallback_policy g.same primary.provider_id primary.model "" g.policies in
      elim (try_target-HasVerdict (tries g) 0 primary
        (if budget.matched then budget.attempt_timeout else 0) (no_progress g) s (refl, refl, refl)
        (tries_left-tries _ (no_progress g))) [
          | inl (q, eq, done) ↦ rw (eq, stream_events_with_fallbacks) (_, refl, inl (refl, done))
          | inr (inl (q, e, eq, short)) ↦
              rw (eq, stream_events_with_fallbacks) (_, refl, inl (refl, short))
          | inr (inr (q, e, eq, over)) ↦
              rw (eq, stream_events_with_fallbacks)
                (after_first-HasStreamReply budget primary e q _ over)
        ]
