-- ===== src/ToolArgs.antt =====
-- The repair of the arguments of a tool call, whole and in chunks, app/core/tool_args.py.
mod Defs
pub mod Chunks
pub mod Whole
mod Tests
pub use Defs.{Sanitizer}
unfoldable pub use Defs.{
  is_bare_word, step_at, scan, sanitize_args, feed_loop, feed, flush, feed_all,
}
