-- ===== src/Limits/Budget.antt =====
-- `apply_output_budget_policy` of app/core/policy.py. A setting is what `int` makes of it, `none` if
-- it refuses, and 0 if the number is not positive.
use llm_aio_gateway.Prelude.{
  ℕ, max, String, Bool, false, not, ◌||◌, Option, none, some, List, [], ◌∷◌, ◌==◌, nat_eq,
  if◌then◌else◌, leb, any, codes, is_space,
}
use llm_aio_gateway.Dict.{get_or}
use llm_aio_gateway.Outcome.Defs.{reads}

unfoldable pub positive_int : Option ℕ → ℕ → ℕ
positive_int value fallback = get_or fallback value

-- `enable_thinking`: a Boolean, a text, or neither
pub data ThinkingFlag : Type 0 where
  flag : Bool → ThinkingFlag
  words : String → ThinkingFlag
  neither : ThinkingFlag

pub record BudgetRequest : Type 0 where
  pub max_tokens_specified : Bool
  pub max_tokens : ℕ
  pub enable_thinking : ThinkingFlag
  pub reasoning_effort : Option String

-- `text.strip().lower() in words`
abbrev reads_one : List String → String → Bool
reads_one ws text = any (λ w. reads (codes w) (codes text)) ws

unfoldable pub reasoning_requested_by_client : BudgetRequest → Bool
unfolding is_space
reasoning_requested_by_client r = elim r.enable_thinking [
  | flag b ↦ b
  | words text ↦ reads_one ("true" ∷ "1" ∷ "yes" ∷ "on" ∷ []) text
  | neither ↦ elim r.reasoning_effort [
    | none ↦ false
    | some effort ↦ not (reads_one ("" ∷ "none" ∷ "off" ∷ "false" ∷ "0" ∷ []) effort)
  ]
]

-- The settings `max_tokens` and `reasoning_max_tokens`, and the model's capability.
unfoldable pub apply_output_budget_policy :
    Option ℕ → Option ℕ → Bool → BudgetRequest → BudgetRequest × String
unfolding positive_int reasoning_requested_by_client
apply_output_budget_policy max_tokens reasoning_max_tokens supports_reasoning r =
    let base = positive_int max_tokens 16384 in
    let reasoning = supports_reasoning || reasoning_requested_by_client r in
    let target = if reasoning then max base (positive_int reasoning_max_tokens 32768) else base in
    if r.max_tokens_specified
    then (r, "")
    else if base == 0
    then (r, "")
    else if leb target r.max_tokens
    then (r, "")
    else (record r { max_tokens = target }, if reasoning then "reasoning" else "default")
