-- ===== src/Cache.antt =====
-- `TTLDict` of app/core/state.py: a dict whose entries live for `ttl` ticks after their last stamp,
-- with room for `max_size` entries, and the image budget that stands on it.
-- Every method holds the object's lock from its first to its last line, so it is one step. A clock
-- reading is an argument: a method that reads `time.time()` several times takes as many, in order.
mod Defs
mod Counter
pub mod Ops
pub mod Shape
pub mod Capacity
pub mod Reads
pub mod Budget
mod Tests
pub use Defs.{TtlDict}
unfoldable pub use Defs.{
  new, is_expired, drop_locked, expired_keys, drop_all, evict_expired, oldest_from, oldest,
  drop_oldest, make_room, set_item, read, get_value, get_item, list_keys, shrink, configure, count,
}
unfoldable pub use Counter.{
  increment_locked, increment, reset, live_after, used_of, reserve, charge, refund,
}
