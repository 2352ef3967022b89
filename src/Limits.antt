-- ===== src/Limits.antt =====
-- The bounds on a request: its body's size and its output's length.
mod Body
mod Budget
pub mod BodyLaws
pub mod BudgetLaws
mod Tests
pub use Body.{
  Event, received, received_other, started, sent, Verdict, served, too_large, broken_off,
}
unfoldable pub use Body.{max_request_body_bytes, declared_length, run_limited, limit_body}
pub use Budget.{ThinkingFlag, BudgetRequest}
unfoldable pub use Budget.{positive_int, reasoning_requested_by_client, apply_output_budget_policy}
