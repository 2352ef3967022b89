-- ===== src/Targets.antt =====
-- The targets of a request and the errors of an upstream, app/services/routing_targets.py.
mod Defs
mod Errors
pub mod CandidateLaws
pub mod ErrorLaws
mod Tests
pub use Defs.{Identity}
unfoldable pub use Defs.{target_identity, unseen_targets, candidate_targets}
pub use Errors.{
  trigger_name, Exc, Trigger, timeout, connection_error, http_429, http_5xx, http_4xx, unknown,
}
unfoldable pub use Errors.{
  has_hard_timeout, upstream_status_code, classify_upstream_error, is_same_target_retryable,
}
