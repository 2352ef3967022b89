-- ===== src/Limits/Tests.antt =====
-- Runs of the limits.
use llm_aio_gateway.Prelude.{
  ◌==◌, nat_eq, ℕ, ◌≤◌, ◌≡◌, refl, ◌↔◌, max, String, true, false, ◌||◌, Option, none, some, List,
  [], ◌∷◌, if◌then◌else◌, is_space, arith,
}
use llm_aio_gateway.Dict.{Dict}
use llm_aio_gateway.Limits.Body.{
  Event, received, received_other, started, sent, served, too_large, broken_off,
  max_request_body_bytes, declared_length, run_limited, over, limit_body,
}
use llm_aio_gateway.Limits.BodyLaws.{body_size, limit_body_iff}
use llm_aio_gateway.Limits.Budget.{
  BudgetRequest, words, positive_int, reasoning_requested_by_client, apply_output_budget_policy,
}
use llm_aio_gateway.Limits.BudgetLaws.{apply_output_budget_policy_lem}

machine : Unit {0}
unfolding is_space max_request_body_bytes declared_length run_limited limit_body body_size
    positive_int reasoning_requested_by_client apply_output_budget_policy
machine = tt

abbrev headers : Dict String (Option ℕ)
headers = ("host", none) ∷ ("content-length", some 900) ∷ []

abbrev events : List Event
events = received 600 ∷ received_other ∷ received 300 ∷ started ∷ sent ∷ []

cut_in_answer : limit_body (some 5) "http" "POST" [] (started ∷ received 2000 ∷ []) ≡ broken_off
unfolding machine
cut_in_answer = refl

cut_before : limit_body (some 5) "http" "PUT" [] (received 1000 ∷ received 25 ∷ []) ≡ too_large
unfolding machine
cut_before = refl

limit_body_iff_example :
    (limit_body (some 2000) "http" "POST" headers events ≡ served)
    ↔ ((over 2000 (some 900) ≡ false) × (body_size events ≤ 2000))
unfolding machine
limit_body_iff_example = limit_body_iff (some 2000) "http" "POST" headers events refl (omega arith)

abbrev thinking : BudgetRequest
thinking = record {
  max_tokens_specified = false;
  max_tokens = 16384;
  enable_thinking = words " On";
  reasoning_effort = none;
}

raised : (apply_output_budget_policy none none false thinking).0.max_tokens ≡ 32768
unfolding machine
raised = refl

apply_output_budget_policy_lem_example :
    (apply_output_budget_policy none none true thinking).0.max_tokens ≡ (
      if thinking.max_tokens_specified || positive_int none 16384 == 0
      then thinking.max_tokens
      else max thinking.max_tokens (
          if true || reasoning_requested_by_client thinking
          then max (positive_int none 16384) (positive_int none 32768)
          else positive_int none 16384))
apply_output_budget_policy_lem_example = apply_output_budget_policy_lem none none true thinking
