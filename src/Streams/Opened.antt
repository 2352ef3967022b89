-- ===== src/Streams/Opened.antt =====
-- One attempt, once its stream is open: what is passed on, what is told, and how it ends.
use llm_aio_gateway.Prelude.{
  ℕ, suc, zero, String, Bool, true, false, not, ◌&&◌, Option, none, some, List, [], ◌∷◌, ◌++◌,
  string_eq, if◌then◌else◌, is_empty, any, map,
}
use llm_aio_gateway.Routing.{RouteTarget}
use llm_aio_gateway.Outcome.{Attempt}
use llm_aio_gateway.Attempts.Defs.{Failure, target_model_for_log, attempt_record}
use llm_aio_gateway.Streams.Events.{Event, Metadata, is_text, has_usable_payload}
use llm_aio_gateway.Streams.Hold.{Holding, nothing_yet, hold_all}

-- What an upstream sends under the timeouts: the provider that serves the target, its events, and the
-- failure that ends them, if any.
pub record Run : Type 0 where
  pub adapter_provider_id : String
  pub events : List Event
  pub failure : Option Failure

-- What the loop gives to its caller: the metadata at the start and at the successful end of an
-- attempt, and the events that are passed on.
pub data Sent : Type 0 where
  started finished : Metadata → Sent
  passed : Event → Sent

-- A failure, and whether it is an empty stream or one of placeholders.
pub record StreamFailure : Type 0 where
  pub failure : Failure
  pub is_degenerate : Bool

-- What comes of an attempt; no error is a success.
pub record Attempted : Type 0 where
  pub sent : List Sent
  pub emitted : Bool
  pub adapter_provider_id : String
  pub error : Option StreamFailure

unfoldable pub empty_stream_error : Bool → StreamFailure
empty_stream_error placeholder = record {
  failure = (
    record {
      is_timeout = false;
      is_http = false;
      is_network = false;
      is_internal = false;
      status_code = none;
      response_status = none;
      text =
          if placeholder
          then "upstream stream ended with placeholder-only response"
          else "upstream stream ended without response output";
      type_name = "runtimeerror";
    },
    [],
  );
  is_degenerate = true;
}

abbrev pub stage_of : ℕ → String
stage_of zero = "primary"
stage_of (suc index) = "fallback"

abbrev pub used_status : ℕ → String
used_status zero = "unused"
used_status (suc index) = "used"

-- The metadata of an attempt, with the attempts before it and what became of it by then.
unfoldable pub attempt_metadata : String → ℕ → RouteTarget → String → List Attempt → Metadata
unfolding target_model_for_log
attempt_metadata status index target provider attempts = record {
  model = target_model_for_log target provider;
  provider_id = provider;
  attempt_index = some index;
  fallback_status = some (used_status index);
  fallback_attempts =
      some (attempts ++ (attempt_record index (stage_of index) target provider status "" ∷ []));
  attempted_model = none;
  attempted_provider = none;
}

abbrev pub terminal_events : Option Event → List Sent
terminal_events none = []
terminal_events (some e) = passed e ∷ []

-- What follows the loop over the events of an open stream, with the metadata and what the loop left.
unfoldable pub end_stream : Metadata → Metadata → String → Holding → Option Failure → Attempted
unfolding has_usable_payload empty_stream_error
end_stream start end provider h (some e) = record {
  sent = started start ∷ map passed h.out;
  emitted = h.emitted;
  adapter_provider_id = provider;
  error = some (record { failure = e; is_degenerate = false });
}
end_stream start end provider h none =
    if not h.emitted && not (has_usable_payload h.pending)
    then record {
      sent = started start ∷ map passed h.out;
      emitted = h.emitted;
      adapter_provider_id = provider;
      error = some (
          empty_stream_error
            (any (λ (e : Event). is_text e.kind && not (is_empty e.text)) h.pending));
    }
    else record {
      sent = (started start ∷ map passed h.out) ++ (finished end ∷ terminal_events h.terminal);
      emitted = h.emitted;
      adapter_provider_id = provider;
      error = none;
    }

-- The body of the `try`, once the stream is open.
unfoldable pub finish_stream : ℕ → RouteTarget → List Attempt → Run → Attempted
unfolding hold_all end_stream attempt_metadata
finish_stream index target attempts run =
    let provider = run.adapter_provider_id in
    end_stream (attempt_metadata "started" index target provider attempts)
      (attempt_metadata "success" index target provider attempts) provider
      (hold_all nothing_yet run.events) run.failure
