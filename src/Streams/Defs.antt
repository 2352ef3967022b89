-- ===== src/Streams/Defs.antt =====
-- The loop over the targets of a streamed request. The state of the upstreams is threaded through
-- the calls; a client that leaves while events are passed on is not part of it. `while index <
-- len(targets)` stands here as the tries of one target, and the loop over the targets that come
-- after the primary one.
use llm_aio_gateway.Prelude.{
  ℕ, suc, zero, String, inl, inr, Bool, true, false, not, ◌&&◌, Option, none, some, List, [], ◌∷◌,
  ◌++◌, ◌==◌, ◌≡◌, ◌↔◌, arith, string_eq, EqTest, if◌then◌else◌, ltb,
}
use llm_aio_gateway.Dict.{Dict, get, put, get_or}
use llm_aio_gateway.Routing.{RouteTarget, FallbackDecision, apply_fallback_policy}
use llm_aio_gateway.Targets.{
  is_same_target_retryable, candidate_targets, trigger_name, target_identity, Identity,
}
use llm_aio_gateway.Outcome.{Attempt}
use llm_aio_gateway.Attempts.Defs.{Gateway, attempt_record, classify, choose_policy, tail}
use llm_aio_gateway.Streams.Opened.{
  Attempted, Run, Sent, StreamFailure, finish_stream, stage_of, used_status,
}

abbrev pub same_pair : String × String → String × String → Bool
same_pair (a, b) (c, d) = a == c && b == d

pub same_pair_iff : (x y : String × String) → (same_pair x y ≡ true) ↔ (x ≡ y)
same_pair_iff (a, b) (c, d) = ground (arith, string_eq.beq_iff a c, string_eq.beq_iff b d)

instance abbrev pub identity_eq : EqTest (String × String)
identity_eq = record { same_value = same_pair; beq_iff = same_pair_iff }

-- The state of the loop that outlives an attempt.
pub record Progress : Type 0 where
  pub sent : List Sent
  pub attempts : List Attempt
  pub degenerate_retries : Dict Identity ℕ
  pub same_target_retries : Dict Identity ℕ

pub data Verdict : Type 0 where
  answered : Verdict
  cut gave_up : StreamFailure → Verdict

pub record StreamReply : Type 0 where
  pub progress : Progress
  pub fallback_status : String
  pub error : Option StreamFailure

module _ {S : Type 0} (g : Gateway S Run) where
  unfoldable pub attempt_stream : ℕ → RouteTarget → ℕ → List Attempt → S → S × Attempted
  unfolding finish_stream
  attempt_stream index target time_limit attempts s =
      let (s', answer) = g.call (stage_of index) target time_limit s in
      elim answer [
        | inl run ↦ (s', finish_stream index target attempts run)
        | inr e ↦ (
          s',
          record {
            sent = [];
            emitted = false;
            adapter_provider_id = "";
            error = some (record { failure = e; is_degenerate = false });
          },
        )
      ]

  abbrev pub record_of : ℕ → RouteTarget → String → Option StreamFailure → Attempt
  record_of index target provider none =
      attempt_record index (stage_of index) target provider "success" ""
  record_of index target provider (some e) =
      attempt_record index (stage_of index) target (g.provider_id_for target) "failed"
        (trigger_name (classify g e.failure))

  -- The progress after an attempt.
  unfoldable pub advance : ℕ → RouteTarget → Attempted → Progress → Progress
  advance index target a p = record p {
    sent = p.sent ++ a.sent;
    attempts = p.attempts ++ (record_of index target a.adapter_provider_id a.error ∷ []);
  }

  -- The tries of one target: `continue` tries it again, and a failure that is not tried again moves on.
  unfoldable pub try_target :
      ℕ → ℕ → RouteTarget → ℕ → Progress → S → S × Option (Progress × Verdict)
  unfolding attempt_stream advance
  try_target zero index target time_limit p s = (s, none)
  try_target (suc fuel) index target time_limit p s =
      let (s', a) = attempt_stream index target time_limit p.attempts s in
      let p' = advance index target a p in
      elim a.error [
        | none ↦ (s', some (p', answered))
        | some e ↦
            let key = target_identity g.provider_of_model target in
            let degenerate = get_or 0 (get key p'.degenerate_retries) in
            let retries = get_or 0 (get key p'.same_target_retries) in
            let again_degenerate =
              try_target fuel index target time_limit
                (record p' { degenerate_retries = put key (suc degenerate) p'.degenerate_retries })
                s' in
            let again_same =
              try_target fuel index target time_limit
                (record p' { same_target_retries = put key (suc retries) p'.same_target_retries })
                s' in
            if a.emitted
            then (s', some (p', cut e))
            else if ltb 0 index && e.is_degenerate && ltb degenerate 1
            then again_degenerate
            else if is_same_target_retryable (e.failure.0) (e.failure.1) (classify g e.failure)
                && ltb retries g.retry_limit
            then again_same
            else (s', some (p', gave_up e))
      ]

  abbrev pub tries : ℕ
  tries = suc (suc g.retry_limit)

  -- The targets after the primary one, from the failure before them.
  unfoldable pub rest_loop :
      List RouteTarget → ℕ → ℕ → StreamFailure → Progress → S → S × Option StreamReply
  unfolding try_target
  rest_loop [] index time_limit last p s =
      (s, some (record { progress = p; fallback_status = "exhausted"; error = some last }))
  rest_loop (t ∷ ts) index time_limit last p s =
      let (s', result) = try_target tries index t time_limit p s in
      elim result [
        | none ↦ (s', none)
        | some (p', answered) ↦
            (s', some (record { progress = p'; fallback_status = used_status index; error = none }))
        | some (p', cut e) ↦
            (s', some (record { progress = p'; fallback_status = "skipped"; error = some e }))
        | some (p', gave_up e) ↦ rest_loop ts (suc index) time_limit e p' s'
      ]

  -- What follows the failure of the primary target.
  unfoldable pub after_first :
      FallbackDecision → RouteTarget → StreamFailure → Progress → S → S × Option StreamReply
  unfolding rest_loop choose_policy
  after_first budget primary e p s =
      let decision = choose_policy g budget primary (classify g e.failure) in
      if not decision.matched
      then (s, some (record { progress = p; fallback_status = "no_policy"; error = some e }))
      else rest_loop (tail (candidate_targets g.provider_of_model primary decision.chain)) 1
          decision.attempt_timeout e p s

  abbrev pub no_progress : Progress
  no_progress = record {
    sent = [];
    attempts = [];
    degenerate_retries = [];
    same_target_retries = [];
  }

  unfoldable pub stream_events_with_fallbacks : RouteTarget → S → S × Option StreamReply
  unfolding try_target after_first
  stream_events_with_fallbacks requested s =
      let primary : RouteTarget = record requested { provider_id = g.provider_id_for requested } in
      let budget = apply_fallback_policy g.same primary.provider_id primary.model "" g.policies in
      let (s', result) =
        try_target tries 0 primary (if budget.matched then budget.attempt_timeout else 0)
          no_progress s in
      elim result [
        | none ↦ (s', none)
        | some (p', answered) ↦
            (s', some (record { progress = p'; fallback_status = "unused"; error = none }))
        | some (p', cut e) ↦
            (s', some (record { progress = p'; fallback_status = "skipped"; error = some e }))
        | some (p', gave_up e) ↦ after_first budget primary e p' s'
      ]
