-- ===== src/Attempts/Tests.antt =====
-- Runs of the loops.
use llm_aio_gateway.Prelude.{
  ℕ, suc, ◌≤◌, ◌≡◌, refl, String, ◌⊎◌, inl, inr, true, false, Option, none, some, List, [], ◌∷◌,
  ◌==◌, nat_eq, string_eq, length, if◌then◌else◌, map, is_space, leb, ◌&&◌,
}
use llm_aio_gateway.Dict.{get}
use llm_aio_gateway.Model.{parse, cut_slash, is_composite, star, full_match, wildcard_match}
use llm_aio_gateway.Routing.{
  RouteTarget, Policy, occurs_in, trigger_enabled, policy_matches, route_targets, clamp_timeout,
  decide_fallback, first_policy, by_catch_all, apply_fallback_policy,
}
use llm_aio_gateway.Outcome.{
  Attempt, has_fallback_success, success_after_fail, is_fallback_used, read_status,
  resolve_request_status,
}
use llm_aio_gateway.Targets.{
  Exc, classify_upstream_error, is_same_target_retryable, target_identity, unseen_targets,
  candidate_targets,
}
use llm_aio_gateway.Attempts.Defs.{
  Failure, Gateway, Reply, choose_policy, fallback_loop, after_primary, primary_loop,
  call_nonstream_with_fallbacks, details_of,
}
use llm_aio_gateway.Attempts.Shape.{IsEnded}
use llm_aio_gateway.Attempts.Fuel.{primary_calls, call_nonstream_with_fallbacks_lem}
use llm_aio_gateway.Attempts.Status.{IsGraded, answered-IsOk}

abbrev server_error : Exc
server_error = record {
  is_timeout = false;
  is_http = false;
  is_network = false;
  is_internal = false;
  status_code = none;
  response_status = some 503;
  text = "service unavailable";
  type_name = "httpstatuserror";
}

-- The primary target fails, and the second answers.
abbrev answer_of : RouteTarget → String ⊎ Failure
answer_of t = if t.model == "small" then inl "hello" else inr (server_error, [])

abbrev policy : Policy
policy = record {
  id = "1";
  name = "down";
  enabled = true;
  match_provider = "";
  match_model = "big";
  triggers = ("http_5xx", true) ∷ [];
  chain =
      record { model = "big"; provider_id = "p" }
      ∷ record { model = "small"; provider_id = "q" }
      ∷ [];
  attempt_timeout = 30;
}

abbrev gateway : Gateway ℕ String
gateway = record {
  call = λ stage t limit calls. (suc calls, answer_of t);
  provider_id_for = λ t. "p";
  provider_of_model = λ m. none;
  policies = policy ∷ [];
  is_word = λ c. leb 97 c && leb c 122;
  is_digit = λ c. leb 48 c && leb c 57;
  same = λ a b. a == b;
  retry_limit = 1;
}

abbrev asked : RouteTarget
asked = record { model = "big"; provider_id = "" }

machine : Unit {0}
unfolding get parse cut_slash is_composite star full_match wildcard_match occurs_in trigger_enabled
    policy_matches route_targets clamp_timeout decide_fallback first_policy by_catch_all
    apply_fallback_policy has_fallback_success success_after_fail is_fallback_used read_status
    resolve_request_status classify_upstream_error is_same_target_retryable target_identity
    unseen_targets candidate_targets choose_policy fallback_loop after_primary primary_loop
    call_nonstream_with_fallbacks details_of primary_calls is_space
machine = tt

abbrev reply_of : Option (Reply String) → Reply String
reply_of none = record { attempts = []; fallback_status = ""; attempt_index = 0; result = inl "" }
reply_of (some reply) = reply

abbrev statuses : List Attempt → List String
statuses attempts = map (λ (a : Attempt). a.status) attempts

-- The primary target is tried twice, and is no fallback of itself.
ran :
    call_nonstream_with_fallbacks gateway asked 0
    ≡ (3, some (reply_of (call_nonstream_with_fallbacks gateway asked 0).1))
unfolding machine
ran = refl

ran_statuses :
    statuses (reply_of (call_nonstream_with_fallbacks gateway asked 0).1).attempts
    ≡ "failed" ∷ "failed" ∷ "success" ∷ []
unfolding machine
ran_statuses = refl

call_nonstream_with_fallbacks_lem_example :
    (reply : Reply String) × ((call_nonstream_with_fallbacks gateway asked 0).1 ≡ some reply)
    × IsEnded reply
    × (primary_calls reply.attempts ≤ 2)
call_nonstream_with_fallbacks_lem_example = call_nonstream_with_fallbacks_lem gateway asked 0

answered-IsOk_example :
    let reply = reply_of (call_nonstream_with_fallbacks gateway asked 0).1 in
    IsGraded (resolve_request_status true false (details_of reply)) (length reply.attempts)
unfolding machine
answered-IsOk_example =
    answered-IsOk gateway asked 0 (reply_of (call_nonstream_with_fallbacks gateway asked 0).1)
      "hello" refl refl
