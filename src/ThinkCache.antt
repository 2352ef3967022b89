-- ===== src/ThinkCache.antt =====
-- The reasoning texts that are kept between requests, app/core/state.py.
mod Defs
pub mod Isolation
mod Tests
unfoldable pub use Defs.{
  principal_of, global_reasoning_key, write_tools, trim_oldest, remember_reasoning_content,
  find_texts, merge_global_reasoning_context, reasoning_context,
}
