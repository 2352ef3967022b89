-- ===== src/Accounting.antt =====
-- What a streamed request leaves in the logs and counters, `stream_internal_output` of
-- app/core/streaming.py and `increment_global_stats` of app/database.py.
mod Gather
mod Settle
pub mod Tools
pub mod Once
pub mod Stats
pub mod Streamed
mod Tests
pub use Gather.{ToolCall, Meter, Recorder}
unfoldable pub use Gather.{meter_event, meter_all, record_event, record_all}
pub use Settle.{Ending, completed, raised, Entry, Account}
unfoldable pub use Settle.{settle}
