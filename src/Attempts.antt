-- ===== src/Attempts.antt =====
-- The attempts of a request that is not streamed, `_call_nonstream_with_fallbacks` of
-- app/router/proxy.py: the primary target, its retries, and the fallback targets in order.
pub mod Defs
pub mod Shape
pub mod Fuel
pub mod Status
mod Tests
pub use Defs.{Failure, Gateway, Reply}
unfoldable pub use Defs.{
  target_model_for_log, same_target_retry_limit, choose_policy, fallback_loop, primary_loop,
  call_nonstream_with_fallbacks, details_of,
}
