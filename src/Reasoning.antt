-- ===== src/Reasoning.antt =====
-- The reasoning text that thinking models want back, app/core/policy.py:
-- `inject_reasoning_content` and `has_missing_reasoning_content_for_tool_calls`.
mod Defs
pub mod Laws
mod Tests
unfoldable pub use Defs.{
  reasoning_part, stops_scan, is_candidate, first_known, chosen_text, inject_scan,
  inject_reasoning_content, has_missing_reasoning,
}
