-- ===== src/Attempts/Defs.antt =====
-- The two loops. The state of the upstreams is threaded through the calls, so a target may answer
-- each call in another way. What the log records of an attempt beside its outcome is left out, and
-- so is the copy of the request that `_internal_for_target_attempt` makes for a target.
use llm_aio_gateway.Prelude.{
  ℕ, suc, zero, min, String, ◌⊎◌, inl, inr, Bool, true, false, not, ◌&&◌, Option, none, some, List,
  [], ◌∷◌, ◌++◌, if◌then◌else◌, ltb, is_nonempty,
}
use llm_aio_gateway.Model.{parse, composite, is_composite}
use llm_aio_gateway.Routing.{RouteTarget, Policy, FallbackDecision, apply_fallback_policy}
use llm_aio_gateway.Targets.{
  Exc, Trigger, timeout, connection_error, http_429, http_5xx, http_4xx, unknown,
  classify_upstream_error, is_same_target_retryable, candidate_targets, trigger_name,
}
use llm_aio_gateway.Outcome.{Attempt, Details}

-- An exception with the chain of its causes.
abbrev pub Failure : Type 0
Failure = Exc × List Exc

-- What the loops ask of the rest of the gateway.
pub record Gateway (S Out : Type 0) : Type 0 where
  -- `_call_nonstream_target` under `_await_with_attempt_timeout`; 0 is no timeout.
  pub call : String → RouteTarget → ℕ → S → S × (Out ⊎ Failure)
  -- `_fallback_provider_id_for_target`
  pub provider_id_for : RouteTarget → String
  pub provider_of_model : String → Option String
  pub policies : List Policy
  -- `re`'s classes of characters, and the folding of `re.IGNORECASE`
  pub is_word : ℕ → Bool
  pub is_digit : ℕ → Bool
  pub same : ℕ → ℕ → Bool
  pub retry_limit : ℕ

-- What the caller gets, with the details that are attached to the output or to the exception.
pub record Reply (Out : Type 0) : Type 0 where
  pub attempts : List Attempt
  pub fallback_status : String
  pub attempt_index : ℕ
  pub result : Out ⊎ Failure

-- _same_target_retry_limit; `none` is a setting that `int` refuses, and a negative one reads as 0.
unfoldable pub same_target_retry_limit : Option ℕ → ℕ
same_target_retry_limit none = 1
same_target_retry_limit (some n) = min 3 n

-- _target_model_for_log
unfoldable pub target_model_for_log : RouteTarget → String → String
unfolding parse composite is_composite
target_model_for_log target provider =
    let mid = parse target.model in
    let resolved =
      if is_nonempty provider
      then provider
      else if is_nonempty target.provider_id
      then target.provider_id
      else mid.provider_id in
    if is_nonempty resolved && not (is_composite mid)
    then composite (record { provider_id = resolved; model_name = mid.model_name })
    else composite mid

-- _fallback_attempt_record, without the text of the error
abbrev pub attempt_record : ℕ → String → RouteTarget → String → String → String → Attempt
attempt_record index stage target provider status trigger = record {
  index = index;
  stage = stage;
  model = target_model_for_log target provider;
  provider_id = if is_nonempty provider then provider else target.provider_id;
  status = status;
  trigger = trigger;
}

abbrev is_timeout_trigger : Trigger → Bool
is_timeout_trigger timeout = true
is_timeout_trigger connection_error = false
is_timeout_trigger http_429 = false
is_timeout_trigger http_5xx = false
is_timeout_trigger http_4xx = false
is_timeout_trigger unknown = false

abbrev pub tail {ℓ} : {A : Type ℓ} → List A → List A
tail [] = []
tail (x ∷ xs) = xs

module _ {S Out : Type 0} (g : Gateway S Out) where
  abbrev pub classify : Failure → Trigger
  classify e = classify_upstream_error g.is_word g.is_digit (e.0) (e.1)

  -- The decision after the primary target failed; the budget's own policy serves for a timeout.
  unfoldable pub choose_policy : FallbackDecision → RouteTarget → Trigger → FallbackDecision
  choose_policy budget target trigger =
      let decision =
        apply_fallback_policy g.same (g.provider_id_for target) target.model (trigger_name trigger)
          g.policies in
      if not decision.matched && budget.matched && is_timeout_trigger trigger
      then budget
      else decision

  -- The loop over `targets[1:]`, from the failure before it.
  unfoldable pub fallback_loop :
      List RouteTarget → ℕ → ℕ → Failure → List Attempt → S → S × Reply Out
  fallback_loop [] index time_limit last attempts s = (
    s,
    record {
      attempts = attempts;
      fallback_status = "exhausted";
      attempt_index = 0;
      result = inr last;
    },
  )
  fallback_loop (t ∷ ts) index time_limit last attempts s =
      let (s', answer) = g.call "fallback" t time_limit s in
      elim answer [
        | inl output ↦ (
          s',
          record {
            attempts =
                attempts ++ (attempt_record index "fallback" t t.provider_id "success" "" ∷ []);
            fallback_status = "used";
            attempt_index = index;
            result = inl output;
          },
        )
        | inr e ↦
            fallback_loop ts (suc index) time_limit e
              (attempts
                ++ (attempt_record index "fallback" t t.provider_id "failed"
                      (trigger_name (classify e))
                    ∷ []))
              s'
      ]

  -- What follows the failure of the primary target that is not tried again.
  unfoldable pub after_primary :
      FallbackDecision → RouteTarget → Failure → List Attempt → S → S × Reply Out
  unfolding fallback_loop choose_policy
  after_primary budget primary e attempts s =
      let decision = choose_policy budget primary (classify e) in
      if not decision.matched
      then (
        s,
        record {
          attempts = attempts;
          fallback_status = "no_policy";
          attempt_index = 0;
          result = inr e;
        },
      )
      else fallback_loop (tail (candidate_targets g.provider_of_model primary decision.chain)) 1
          decision.attempt_timeout e attempts s

  -- The `while retry_primary` loop; `retries` is `same_target_retries` at the primary target's key.
  -- It stops without a reply only if the fuel ends.
  unfoldable pub primary_loop :
      ℕ → FallbackDecision → RouteTarget → ℕ → List Attempt → S → S × Option (Reply Out)
  unfolding after_primary
  primary_loop zero budget primary retries attempts s = (s, none)
  primary_loop (suc fuel) budget primary retries attempts s =
      let provider = g.provider_id_for primary in
      let (s', answer) =
        g.call "primary" primary (if budget.matched then budget.attempt_timeout else 0) s in
      elim answer [
        | inl output ↦ (
          s',
          some (record {
            attempts = attempts ++ (attempt_record 0 "primary" primary provider "success" "" ∷ []);
            fallback_status = "unused";
            attempt_index = 0;
            result = inl output;
          }),
        )
        | inr e ↦
            let trigger = classify e in
            let attempts' =
              attempts
              ++ (attempt_record 0 "primary" primary provider "failed" (trigger_name trigger)
                  ∷ []) in
            let again = primary_loop fuel budget primary (suc retries) attempts' s' in
            if is_same_target_retryable (e.0) (e.1) trigger && ltb retries g.retry_limit
            then again
            else (let (s'', reply) = after_primary budget primary e attempts' s' in
                (s'', some reply))
      ]

  -- The whole, with fuel for each try of the primary target.
  unfoldable pub call_nonstream_with_fallbacks : RouteTarget → S → S × Option (Reply Out)
  unfolding primary_loop
  call_nonstream_with_fallbacks requested s =
      let primary : RouteTarget = record requested { provider_id = g.provider_id_for requested } in
      let budget = apply_fallback_policy g.same primary.provider_id primary.model "" g.policies in
      primary_loop (suc g.retry_limit) budget primary 0 [] s

-- The details that the status of the request is derived from.
unfoldable pub details_of : {Out : Type 0} → Reply Out → Details
details_of reply = record {
  status = "";
  fallback_status = reply.fallback_status;
  attempt_index = reply.attempt_index;
  fallback_attempts = reply.attempts;
  partial_output = false;
  client_disconnected = false;
}
