-- ===== src/Images.antt =====
-- The image invocations in flight, and those that are briefly reused, app/core/image_batch.py.
mod Defs
mod Keys
pub mod Claims
pub mod Room
pub mod Dropping
pub mod Adding
pub mod Settling
pub mod Withdrawn
pub mod Sharing
pub mod Outcomes
pub mod Reuse
pub mod Refusal
mod Tests
pub use Defs.{Settled, result, raised, was_abandoned, was_cancelled, Entry, Invocations, Claim}
unfoldable pub use Defs.{
  is_done, settle, abandon, drop_all, make_room, claim, resolve, reject, invalidate,
}
