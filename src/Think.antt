-- ===== src/Think.antt =====
-- The thoughts in a text, app/core/think.py.
mod Defs
pub mod Fuel
pub mod Blocks
mod Tests
unfoldable pub use Defs.{extract_and_strip_think}
