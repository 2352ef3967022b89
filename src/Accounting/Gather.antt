-- ===== src/Accounting/Gather.antt =====
-- What is gathered from the events that pass: `metered_events` and `record_streaming_events`. The
-- times of the outputs are left out.
use llm_aio_gateway.Prelude.{
  ℕ, String, Bool, true, false, not, ◌&&◌, ◌||◌, Option, none, some, List, [], ◌∷◌, ◌++◌, ◌==◌,
  nat_eq, if◌then◌else◌, is_nonempty, is_empty,
}
use llm_aio_gateway.Dict.{get_or}
use llm_aio_gateway.Outcome.{Details}
use llm_aio_gateway.Streams.{
  Kind, message_start, text_delta, reasoning_delta, tool_call_start, tool_call_arguments_delta,
  tool_call_done, message_delta, message_done, usage, metadata, Event, Metadata,
}

pub record ToolCall : Type 0 where
  pub id : String
  pub name : String
  pub arguments : List ℕ

-- The details of the stream are those that the outcome reads, and three more that the log reads.
pub record Meter : Type 0 where
  pub total_tokens : ℕ
  pub final_model : String
  pub final_provider_id : String
  pub visible_output_started : Bool
  pub saw_message_done : Bool
  pub stream_details : Details
  pub attempted_model : String
  pub attempted_provider : String
  pub stateful_fallback_blocked : Bool
  pub streamed_text_parts : List (List ℕ)
  pub streamed_reasoning_parts : List (List ℕ)
  pub streamed_tool_calls : List ToolCall
  pub current_tool : Option ToolCall

abbrev pub or_text : String → String → String
or_text new old = if is_nonempty new then new else old

-- The keys of the metadata that are there replace those of the details.
unfoldable pub merge_metadata : Metadata → Details → Details
merge_metadata m d = record d {
  fallback_status = get_or d.fallback_status m.fallback_status;
  attempt_index = get_or d.attempt_index m.attempt_index;
  fallback_attempts = get_or d.fallback_attempts m.fallback_attempts;
}

abbrev tool_of : Event → ToolCall
tool_of e = record { id = e.tool_call_id; name = e.name; arguments = [] }

-- A later event names the tool again, or leaves its name.
abbrev renamed : Event → ToolCall → ToolCall
renamed e t = record t { id = or_text e.tool_call_id t.id; name = or_text e.name t.name }

abbrev more_arguments : Event → ToolCall → ToolCall
more_arguments e t = record t {
  arguments = if not (is_empty e.arguments) then e.arguments else t.arguments ++ e.arguments_delta;
}

abbrev with_part : List ℕ → List (List ℕ) → List (List ℕ)
with_part text parts = if is_empty text then parts else parts ++ (text ∷ [])

abbrev close_tool : Option ToolCall → List ToolCall → List ToolCall
close_tool none calls = calls
close_tool (some t) calls = calls ++ (t ∷ [])

abbrev pub by_kind : Kind → Event → Meter → Meter
by_kind metadata e m = record m {
  final_model = or_text e.metadata.model m.final_model;
  final_provider_id = or_text e.metadata.provider_id m.final_provider_id;
  stream_details = merge_metadata e.metadata m.stream_details;
  attempted_model = get_or m.attempted_model e.metadata.attempted_model;
  attempted_provider = get_or m.attempted_provider e.metadata.attempted_provider;
}
by_kind usage e m = record m {
  total_tokens = if e.total_tokens == 0 then m.total_tokens else e.total_tokens;
}
by_kind text_delta e m = record m {
  visible_output_started =
      m.visible_output_started || not (is_empty e.text) || not (is_empty e.reasoning);
  streamed_text_parts = with_part e.text m.streamed_text_parts;
}
by_kind reasoning_delta e m = record m {
  visible_output_started =
      m.visible_output_started || not (is_empty e.text) || not (is_empty e.reasoning);
  streamed_reasoning_parts = with_part e.reasoning m.streamed_reasoning_parts;
}
by_kind tool_call_start e m = record m {
  visible_output_started = true;
  current_tool =
      if is_nonempty e.tool_call_id || is_nonempty e.name then some (tool_of e) else m.current_tool;
}
by_kind tool_call_arguments_delta e m = record m {
  current_tool = some (more_arguments e (renamed e (get_or (tool_of e) m.current_tool)));
}
by_kind tool_call_done e m = elim m.current_tool [
  | none ↦ m
  | some t ↦ record m {
    streamed_tool_calls = m.streamed_tool_calls ++ (renamed e t ∷ []);
    current_tool = none;
  }
]
by_kind message_done e m = record m {
  visible_output_started = true;
  saw_message_done = true;
  streamed_tool_calls = close_tool m.current_tool m.streamed_tool_calls;
  current_tool = none;
}
by_kind message_start e m = m
by_kind message_delta e m = m

unfoldable pub meter_event : Event → Meter → Meter
unfolding merge_metadata
meter_event e m = by_kind e.kind e m

unfoldable pub meter_all : List Event → Meter → Meter
meter_all [] m = m
meter_all (e ∷ es) m = meter_all es (meter_event e m)

-- What `record_streaming_events` has seen, and what it did: the reasoning that it remembered with
-- the ids of the tools, and whether it counted a turn of tools only or set their count back.
pub data Note : Type 0 where
  remembered : List ℕ → List String → Note
  tool_only_increment tool_only_reset : Note

pub record Recorder : Type 0 where
  pub accumulated_reasoning : List ℕ
  pub has_text : Bool
  pub has_tools : Bool
  pub tool_ids : List String
  pub finalized : Bool
  pub notes : List Note

abbrev pub new_recorder : Recorder
new_recorder = record {
  accumulated_reasoning = [];
  has_text = false;
  has_tools = false;
  tool_ids = [];
  finalized = false;
  notes = [];
}

unfoldable pub finalize : Recorder → Recorder
finalize r = record r {
  accumulated_reasoning = [];
  notes =
      r.notes
      ++ (if is_empty r.accumulated_reasoning
          then []
          else remembered r.accumulated_reasoning r.tool_ids ∷ [])
      ++ ((if r.has_tools && not r.has_text then tool_only_increment else tool_only_reset) ∷ []);
}

abbrev pub recorded_kind : Kind → Event → Recorder → Recorder
recorded_kind text_delta e r = record r { has_text = r.has_text || not (is_empty e.text) }
recorded_kind reasoning_delta e r = record r {
  accumulated_reasoning = r.accumulated_reasoning ++ e.reasoning;
}
recorded_kind tool_call_start e r = record r {
  has_tools = true;
  tool_ids = if is_nonempty e.tool_call_id then r.tool_ids ++ (e.tool_call_id ∷ []) else r.tool_ids;
}
recorded_kind message_done e r = record (finalize r) { finalized = true }
recorded_kind message_start e r = r
recorded_kind tool_call_arguments_delta e r = r
recorded_kind tool_call_done e r = r
recorded_kind message_delta e r = r
recorded_kind usage e r = r
recorded_kind metadata e r = r

unfoldable pub record_event : Event → Recorder → Recorder
unfolding finalize
record_event e r = recorded_kind e.kind e r

-- All events of a stream that comes to its end.
unfoldable pub record_all : List Event → Recorder → Recorder
unfolding finalize
record_all [] r = if r.finalized then r else finalize r
record_all (e ∷ es) r = record_all es (record_event e r)
