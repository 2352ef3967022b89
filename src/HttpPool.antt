-- ===== src/HttpPool.antt =====
-- The pool of shared HTTP clients with reference counts, app/services/http_pool.py.
mod Defs
pub mod Leases
pub mod Update
pub mod Steps
pub mod Acquire
pub mod Reach
mod Tests
pub use Defs.{Entry, Pool, PoolKey}
unfoldable pub use Defs.{
  empty_pool, pool_key, in_use_at, close_entry, evict_idle, pick_idle, reclaim, evict_locked,
  with_entry, acquire, release, aclose_shared_clients, shared_client_pool_size, in_use_count,
  get_shared_client,
}
