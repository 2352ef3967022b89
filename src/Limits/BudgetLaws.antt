-- ===== src/Limits/BudgetLaws.antt =====
-- The output budget is only raised, and only where the client set no limit.
use llm_aio_gateway.Prelude.{
  ◌==◌, nat_eq, ℕ, max, ◌≡◌, Bool, ◌||◌, Option, nat_eq, if◌then◌else◌, arith,
}
use llm_aio_gateway.Limits.Budget.{
  BudgetRequest, positive_int, reasoning_requested_by_client, apply_output_budget_policy,
}

-- A limit that the client set stays as it is, and so does any if the administrator turned the
-- budget off. Else the limit becomes the larger one of what it was and the budget, which for a
-- request that reasons is the larger one of the two settings.
pub apply_output_budget_policy_lem :
    (max_tokens reasoning_max_tokens : Option ℕ) (supports : Bool) (r : BudgetRequest)
    → let base = positive_int max_tokens 16384 in
      let budget =
        if supports || reasoning_requested_by_client r
        then max base (positive_int reasoning_max_tokens 32768)
        else base in
      (apply_output_budget_policy max_tokens reasoning_max_tokens supports r).0.max_tokens
      ≡ (if r.max_tokens_specified || base == 0 then r.max_tokens else max r.max_tokens budget)
unfolding apply_output_budget_policy
apply_output_budget_policy_lem max_tokens reasoning_max_tokens supports r = ground arith
