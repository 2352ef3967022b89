-- ===== src/Streams.antt =====
-- The attempts of a streamed request, `_stream_events_with_fallbacks` of app/router/proxy.py.
mod Events
mod Hold
mod Opened
mod Defs
mod Clocks
pub mod ClockLaws
pub mod HoldSteps
pub mod HoldLaws
pub mod Shape
pub mod Replies
pub mod Fuel
mod Tests
pub use Events.{
  Kind, message_start, text_delta, reasoning_delta, tool_call_start, tool_call_arguments_delta,
  tool_call_done, message_delta, message_done, usage, metadata, Event, Metadata, no_metadata,
  is_done,
}
unfoldable pub use Events.{
  drop_space, is_mark, joined_text, is_visible, has_payload, placeholder_only, starts_client_clock,
  has_usable_payload,
}
pub use Hold.{Holding}
unfoldable pub use Hold.{flushed, hold_step, hold_all}
pub use Opened.{
  Run, terminal_events, used_status, stage_of, Sent, started, passed, finished, StreamFailure,
}
pub use Defs.{Progress, StreamReply, no_progress}
unfoldable pub use Opened.{empty_stream_error, end_stream, attempt_metadata, finish_stream}
unfoldable pub use Defs.{
  advance, after_first, attempt_stream, try_target, rest_loop, stream_events_with_fallbacks,
}
