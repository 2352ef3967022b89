-- ===== src/History.antt =====
-- The repair of a tool history, app/core/policy.py: `sanitize_tool_history`.
mod Defs
pub mod Keep
pub mod Unchanged
pub mod Inherit
pub mod Groups
pub mod Rounds
pub mod Balance
mod Tests
unfoldable pub use Defs.{
  drop_unnamed, responses, after_responses, all_result_ids, accepted_ids, keep_calls, keep_results,
  kept_after, clean_responses, clean_group, clean, sanitize_tool_history,
}
