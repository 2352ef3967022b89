-- ===== src/Accounting/Tests.antt =====
-- Streamed requests that end.
use llm_aio_gateway.Prelude.{
  ◌+◌, ◌<◌, ◌≡◌, refl, ◌⊎◌, true, false, none, List, [], ◌∷◌, ◌++◌, map, codes, is_space, length,
  arith, ℕ, suc, some, inl, inr, ◌==◌, nat_eq, string_eq, if◌then◌else◌,
}
use llm_aio_gateway.Outcome.{
  read_status, has_fallback_success, success_after_fail, is_fallback_used, resolve_request_status,
  apply_outcome_to_details, stats_counters_for_status,
}
use llm_aio_gateway.Outcome.Disconnect.{Raised, first_segment, is_client_disconnect_error}
use llm_aio_gateway.Routing.{occurs_in}
use llm_aio_gateway.Dict.{get, put}
use llm_aio_gateway.Model.{parse, composite, cut_slash, is_composite}
use llm_aio_gateway.Routing.{RouteTarget, apply_fallback_policy, by_catch_all, first_policy}
use llm_aio_gateway.Targets.{
  Exc, classify_upstream_error, is_same_target_retryable, target_identity,
}
use llm_aio_gateway.Attempts.{Gateway, choose_policy}
use llm_aio_gateway.Attempts.Defs.{target_model_for_log}
use llm_aio_gateway.Streams.{
  text_delta, Event, no_metadata, Run, StreamReply, no_progress, is_visible, has_payload,
  drop_space, is_mark, placeholder_only, joined_text, has_usable_payload, flushed, hold_step,
  hold_all, empty_stream_error, end_stream, attempt_metadata, finish_stream, attempt_stream,
  advance, try_target, rest_loop, after_first, stream_events_with_fallbacks,
}
use llm_aio_gateway.Accounting.Streamed.{event_of, streamed-IsOk}
use llm_aio_gateway.Accounting.Gather.{
  Meter, merge_metadata, meter_event, meter_all, new_recorder, finalize, record_event, record_all,
  tool_only_increment,
}
use llm_aio_gateway.Accounting.Settle.{
  no_request_details, completed, raised, Entry, settle_success, settle_cancelled,
  merge_request_details, settle_failure, closed_after_output, settle_disconnect, settle,
}
use llm_aio_gateway.Accounting.Tools.{
  SentCall, events_of_call, events_of_calls, joined, call_of, meter_all-events_of_calls, IsServed,
  disconnect-IsServed,
}
use llm_aio_gateway.Accounting.Once.{is_let_through, IsUnaccounted, IsOnce, settle-IsOnce}
use llm_aio_gateway.Accounting.Stats.{
  no_stats, increment_global_stats, count_all, Request, serve_all, accounted, IsSound,
  serve_all-IsSound,
}

account_machine : Unit {0}
unfolding read_status has_fallback_success success_after_fail is_fallback_used
    resolve_request_status apply_outcome_to_details stats_counters_for_status first_segment
    is_client_disconnect_error occurs_in is_space merge_metadata meter_event meter_all finalize
    record_event record_all settle_success settle_cancelled merge_request_details settle_failure
    closed_after_output settle_disconnect settle events_of_call events_of_calls joined call_of
    is_let_through increment_global_stats count_all serve_all accounted
account_machine = tt

abbrev new_meter : Meter
new_meter = record {
  total_tokens = 12;
  final_model = "m";
  final_provider_id = "p";
  visible_output_started = false;
  saw_message_done = false;
  stream_details = record {
    status = "";
    fallback_status = "unused";
    attempt_index = 0;
    fallback_attempts = [];
    partial_output = false;
    client_disconnected = false;
  };
  attempted_model = "";
  attempted_provider = "";
  stateful_fallback_blocked = false;
  streamed_text_parts = [];
  streamed_reasoning_parts = [];
  streamed_tool_calls = [];
  current_tool = none;
}

abbrev closed : Raised
closed = record {
  is_generator_exit = true;
  is_cancelled_task = false;
  has_request_details = false;
  is_broken_connection = false;
  module_name = "builtins";
  type_name = "GeneratorExit";
  text = "";
}

abbrev calls : List SentCall
calls = record { id = "c1"; name = "read"; pieces = codes "{" ∷ codes "}" ∷ [] } ∷ []

gathered_call :
    (meter_all (events_of_calls calls) new_meter).streamed_tool_calls
    ≡ record { id = "c1"; name = "read"; arguments = codes "{}" } ∷ []
unfolding account_machine
gathered_call = refl

counted_turn : (record_all (events_of_calls calls) new_recorder).notes ≡ tool_only_increment ∷ []
unfolding account_machine
counted_turn = refl

left_early :
    map
      (λ (e : Entry). e.status)
      (settle false "u" "m" "p" (raised closed false no_request_details) new_meter).entries
    ≡ "cancelled" ∷ []
unfolding account_machine
left_early = refl

meter_all-events_of_calls_example :
    ((meter_all (events_of_calls calls) new_meter).streamed_tool_calls ≡ [] ++ map call_of calls)
    × ((meter_all (events_of_calls calls) new_meter).current_tool ≡ none)
meter_all-events_of_calls_example = meter_all-events_of_calls calls new_meter refl refl

disconnect-IsServed_example :
    let m' = meter_all (events_of_calls calls) new_meter in
    IsServed "u" m'.total_tokens
      (settle false "u" "m" "p" (raised closed false no_request_details) m')
unfolding account_machine
disconnect-IsServed_example =
    disconnect-IsServed calls new_meter false "u" "m" "p" closed false no_request_details refl refl
      refl refl

settle-IsOnce_example :
    ((is_let_through false (raised closed false no_request_details) ≡ true)
      × IsUnaccounted (settle false "u" "m" "p" (raised closed false no_request_details) new_meter))
    ⊎ ((is_let_through false (raised closed false no_request_details) ≡ false)
        × IsOnce "u" (settle false "u" "m" "p" (raised closed false no_request_details) new_meter))
settle-IsOnce_example =
    settle-IsOnce false "u" "m" "p" (raised closed false no_request_details) new_meter

abbrev requests : List Request
requests =
    record {
      shutting_down = false;
      username = "u";
      model = "m";
      provider_id = "p";
      ending = completed;
      meter = new_meter;
    }
    ∷ record {
      shutting_down = false;
      username = "u";
      model = "m";
      provider_id = "p";
      ending = raised closed false no_request_details;
      meter = new_meter;
    }
    ∷ []

served_two :
    serve_all requests no_stats
    ≡ record no_stats { total_calls = 2; failed_calls = 1; cancelled_calls = 1 }
unfolding account_machine
served_two = refl

serve_all-IsSound_example :
    IsSound (serve_all requests no_stats)
    × ((serve_all requests no_stats).total_calls ≡ 0 + length (accounted requests))
serve_all-IsSound_example = serve_all-IsSound requests no_stats (omega arith, omega arith)

abbrev hello : Event
hello = record {
  kind = text_delta;
  text = codes "hello";
  reasoning = [];
  tool_call_id = "";
  name = "";
  arguments_delta = [];
  arguments = [];
  total_tokens = 0;
  metadata = no_metadata;
}

abbrev busy : Exc
busy = record {
  is_timeout = true;
  is_http = false;
  is_network = false;
  is_internal = false;
  status_code = none;
  response_status = none;
  text = "read timeout";
  type_name = "readtimeout";
}

-- The upstream is busy at first.
abbrev gateway : Gateway ℕ Run
gateway = record {
  call = λ stage t limit calls. (
    suc calls,
    if calls == 0
        then inr (busy, [])
        else inl (record { adapter_provider_id = "p"; events = hello ∷ []; failure = none }),
  );
  provider_id_for = λ t. "p";
  provider_of_model = λ m. none;
  policies = [];
  is_word = λ c. false;
  is_digit = λ c. false;
  same = λ a b. a == b;
  retry_limit = 1;
}

abbrev asked : RouteTarget
asked = record { model = "m"; provider_id = "p" }

stream_account_machine : Unit {0}
unfolding account_machine get put parse composite cut_slash is_composite apply_fallback_policy
    by_catch_all first_policy classify_upstream_error is_same_target_retryable target_identity
    choose_policy is_visible has_payload drop_space is_mark placeholder_only joined_text
    has_usable_payload flushed hold_step hold_all empty_stream_error end_stream attempt_metadata
    target_model_for_log finish_stream attempt_stream advance try_target rest_loop after_first
    stream_events_with_fallbacks event_of
stream_account_machine = tt

abbrev answer : StreamReply
answer = elim (stream_events_with_fallbacks gateway asked 0).1 [
  | none ↦ record { progress = no_progress gateway; fallback_status = ""; error = none }
  | some reply ↦ reply
]

answered_late : length answer.progress.attempts ≡ 2
unfolding stream_account_machine
answered_late = refl

streamed-IsOk_example :
    (entry : Entry) × ((settle false "u" "m" "p" completed
        (meter_all (map event_of answer.progress.sent) new_meter)).entries
      ≡ entry ∷ [])
    × (entry.success ≡ true)
    × (((entry.status ≡ "ok") × (length answer.progress.attempts ≡ 1))
        ⊎ ((entry.status ≡ "degraded") × (1 < length answer.progress.attempts)))
unfolding stream_account_machine
streamed-IsOk_example =
    streamed-IsOk gateway asked 0 answer new_meter false "u" "m" "p" refl refl refl
