-- ===== src/Merging.antt =====
-- The merging of a request's messages, `normalize_messages` of app/core/policy.py.
mod Defs
pub mod Runs
pub mod Laws
mod Tests
pub use Defs.{is_system, is_user}
unfoldable pub use Defs.{normalize_messages}
