-- ===== src/Outcome.antt =====
-- The public status of a request, app/core/outcome.py.
pub mod Defs
pub mod Laws
pub mod Disconnect
mod Tests
pub use Defs.{
  Status, ok, degraded, partial, fail, rejected, cancelled, Attempt, Details, OutcomeCounters,
}
unfoldable pub use Defs.{
  name_of, read_status, is_status, has_failed, has_fallback_success, success_after_fail,
  is_fallback_used, resolve_request_status, apply_outcome_to_details, stats_counters_for_status,
}
