-- ===== src/Streams/Events.antt =====
-- The events of an upstream's stream, app/core/output.py, and the tests of them in app/router/proxy.py.
-- Texts are lists of code points; what only the renderers read of an event is left out.
use llm_aio_gateway.Prelude.{
  ℕ, String, Bool, true, false, not, ◌&&◌, ◌||◌, List, [], ◌∷◌, ◌++◌, ◌==◌, nat_eq, if◌then◌else◌,
  is_nonempty, is_empty, is_space, any, all, codes, Option, none,
}
use llm_aio_gateway.Outcome.{Attempt}

pub data Kind : Type 0 where
  message_start text_delta reasoning_delta tool_call_start tool_call_arguments_delta : Kind
  tool_call_done message_delta message_done usage metadata : Kind

-- What the accounting reads of the metadata of an event; a key that is not there is none or empty.
pub record Metadata : Type 0 where
  pub model : String
  pub provider_id : String
  pub attempt_index : Option ℕ
  pub fallback_status : Option String
  pub fallback_attempts : Option (List Attempt)
  pub attempted_model : Option String
  pub attempted_provider : Option String

abbrev pub no_metadata : Metadata
no_metadata = record {
  model = "";
  provider_id = "";
  attempt_index = none;
  fallback_status = none;
  fallback_attempts = none;
  attempted_model = none;
  attempted_provider = none;
}

-- `total_tokens` is that of the usage, 0 if there is none.
pub record Event : Type 0 where
  pub kind : Kind
  pub text : List ℕ
  pub reasoning : List ℕ
  pub tool_call_id : String
  pub name : String
  pub arguments_delta : List ℕ
  pub arguments : List ℕ
  pub total_tokens : ℕ
  pub metadata : Metadata

abbrev pub is_text : Kind → Bool
is_text text_delta = true
is_text reasoning_delta = false
is_text tool_call_start = false
is_text tool_call_arguments_delta = false
is_text tool_call_done = false
is_text message_start = false
is_text message_delta = false
is_text message_done = false
is_text usage = false
is_text metadata = false

abbrev pub is_done : Kind → Bool
is_done message_done = true
is_done text_delta = false
is_done reasoning_delta = false
is_done tool_call_start = false
is_done tool_call_arguments_delta = false
is_done tool_call_done = false
is_done message_start = false
is_done message_delta = false
is_done usage = false
is_done metadata = false

abbrev pub visible_kind : Kind → Bool → Bool
visible_kind text_delta b = b
visible_kind reasoning_delta b = b
visible_kind tool_call_start b = true
visible_kind tool_call_arguments_delta b = true
visible_kind tool_call_done b = true
visible_kind message_start b = false
visible_kind message_delta b = false
visible_kind message_done b = false
visible_kind usage b = false
visible_kind metadata b = false

-- _is_client_visible_stream_event
unfoldable pub is_visible : Event → Bool
is_visible e = visible_kind e.kind (not (is_empty e.text) || not (is_empty e.reasoning))

abbrev pub payload_kind : Kind → Event → Bool
payload_kind text_delta e = not (is_empty e.text)
payload_kind reasoning_delta e = not (is_empty e.reasoning)
payload_kind tool_call_start e = is_nonempty e.tool_call_id || is_nonempty e.name
payload_kind tool_call_arguments_delta e =
    not (is_empty e.arguments_delta)
    || not (is_empty e.arguments)
    || is_nonempty e.tool_call_id
    || is_nonempty e.name
payload_kind tool_call_done e = is_nonempty e.tool_call_id || is_nonempty e.name
payload_kind message_start e = false
payload_kind message_delta e = false
payload_kind message_done e = false
payload_kind usage e = false
payload_kind metadata e = false

-- _stream_event_has_payload
unfoldable pub has_payload : Event → Bool
has_payload e = payload_kind e.kind e

unfoldable pub drop_space : List ℕ → List ℕ
drop_space [] = []
drop_space (c ∷ cs) = let rest = drop_space cs in if is_space c then rest else c ∷ rest

-- `char in ".…·"` and so on
unfoldable pub is_mark : ℕ → Bool
is_mark c = any (λ d. c == d) (codes ".…·。!?！？,，;；:：-_—~～")

-- _placeholder_only_stream_text: `str.split` parts at the same code points as `str.strip`.
unfoldable pub placeholder_only : List ℕ → Bool
unfolding drop_space is_space is_mark
placeholder_only text =
    let compact = drop_space text in not (is_empty compact) && all is_mark compact

-- _stream_output_starts_client_clock
unfoldable pub starts_client_clock : Event → Bool
unfolding is_visible placeholder_only
starts_client_clock e = is_visible e && not (is_text e.kind && placeholder_only e.text)

-- The texts of the text events, joined.
unfoldable pub joined_text : List Event → List ℕ
joined_text [] = []
joined_text (e ∷ es) = let rest = joined_text es in if is_text e.kind then e.text ++ rest else rest

-- _pending_stream_has_usable_payload
unfoldable pub has_usable_payload : List Event → Bool
has_usable_payload es =
    (not (is_empty (joined_text es)) && not (placeholder_only (joined_text es)))
    || any (λ (e : Event). has_payload e && not (is_text e.kind)) es
