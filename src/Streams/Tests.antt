-- ===== src/Streams/Tests.antt =====
-- Runs of streamed attempts.
use llm_aio_gateway.Prelude.{
  ℕ, suc, ◌≡◌, refl, ◌⊎◌, inl, true, false, ◌&&◌, Option, none, some, List, [], ◌∷◌, ◌==◌, nat_eq,
  string_eq, if◌then◌else◌, map, is_space, leb, codes, ◌≤◌, Bool, String,
}
use llm_aio_gateway.Dict.{get, put}
use llm_aio_gateway.Model.{
  parse, composite, cut_slash, is_composite, star, full_match, wildcard_match,
}
use llm_aio_gateway.Routing.{
  RouteTarget, Policy, occurs_in, trigger_enabled, policy_matches, route_targets, clamp_timeout,
  decide_fallback, first_policy, by_catch_all, apply_fallback_policy,
}
use llm_aio_gateway.Outcome.{Attempt}
use llm_aio_gateway.Targets.{
  classify_upstream_error, is_same_target_retryable, target_identity, unseen_targets,
  candidate_targets,
}
use llm_aio_gateway.Attempts.Defs.{Failure, Gateway, choose_policy}
use llm_aio_gateway.Attempts.Defs.{target_model_for_log}
use llm_aio_gateway.Streams.Events.{
  Kind, no_metadata, text_delta, tool_call_start, message_done, Event, is_visible, has_payload,
  drop_space, is_mark, placeholder_only, joined_text, has_usable_payload, starts_client_clock,
}
use llm_aio_gateway.Streams.Hold.{nothing_yet, flushed, hold_step, hold_all}
use llm_aio_gateway.Streams.HoldLaws.{IsHeld, IsPassedOn, without_done, hold_all_lem}
use llm_aio_gateway.Streams.Opened.{
  Run, empty_stream_error, end_stream, attempt_metadata, finish_stream,
}
use llm_aio_gateway.Streams.Defs.{
  StreamReply, attempt_stream, advance, try_target, rest_loop, after_first, no_progress,
  stream_events_with_fallbacks,
}
use llm_aio_gateway.Streams.Clocks.{
  Timed, Upstream, attempt_timeout_error, idle_timeout_error, says_attempt_timeout,
  first_output_clock, idle_clock, with_clocks,
}
use llm_aio_gateway.Streams.ClockLaws.{arrival, events_of, first_output_clock_lem}
use llm_aio_gateway.Streams.Shape.{passed_events, shown, shown_whole, IsOutcome, finish_stream_lem}
use llm_aio_gateway.Streams.Replies.{IsStreamed}
use llm_aio_gateway.Streams.Fuel.{stream_events_with_fallbacks_lem}

abbrev event : Kind → List ℕ → Event
event k t = record {
  kind = k;
  text = t;
  reasoning = [];
  tool_call_id = "";
  name = "";
  arguments_delta = [];
  arguments = [];
  total_tokens = 0;
  metadata = no_metadata;
}

abbrev dots : Event
dots = event text_delta (codes "...")

abbrev word : Event
word = event text_delta (codes "env")

abbrev call : Event
call = event tool_call_start []

abbrev end : Event
end = event message_done []

stream_machine : Unit {0}
unfolding attempt_metadata target_model_for_log get put composite parse cut_slash is_composite star
    full_match wildcard_match occurs_in trigger_enabled policy_matches route_targets clamp_timeout
    decide_fallback first_policy by_catch_all apply_fallback_policy classify_upstream_error
    is_same_target_retryable target_identity unseen_targets candidate_targets choose_policy is_space
    is_visible has_payload drop_space is_mark placeholder_only joined_text has_usable_payload
    starts_client_clock flushed hold_step hold_all without_done empty_stream_error end_stream
    finish_stream attempt_stream advance try_target rest_loop after_first
    stream_events_with_fallbacks passed_events
stream_machine = tt

-- A text that continues a prefix of points keeps it; a call of a tool drops it.
kept_prefix : (hold_all nothing_yet (dots ∷ word ∷ end ∷ [])).out ≡ dots ∷ word ∷ []
unfolding stream_machine
kept_prefix = refl

dropped_prefix : (hold_all nothing_yet (dots ∷ call ∷ dots ∷ [])).out ≡ call ∷ dots ∷ []
unfolding stream_machine
dropped_prefix = refl

points_start_no_clock : starts_client_clock dots ≡ false
unfolding stream_machine
points_start_no_clock = refl

abbrev whole : Run
whole = record { adapter_provider_id = "p"; events = dots ∷ word ∷ end ∷ []; failure = none }

abbrev empty : Run
empty = record { adapter_provider_id = "p"; events = dots ∷ end ∷ []; failure = none }

-- The primary target sends an empty stream, and the second one answers.
abbrev run_of : RouteTarget → Run
run_of t = if t.model == "small" then whole else empty

abbrev policy : Policy
policy = record {
  id = "1";
  name = "empty";
  enabled = true;
  match_provider = "";
  match_model = "big";
  triggers = ("connection_error", true) ∷ [];
  chain = record { model = "small"; provider_id = "q" } ∷ [];
  attempt_timeout = 30;
}

abbrev gateway : Gateway ℕ Run
gateway = record {
  call = λ stage t limit calls. (suc calls, inl (run_of t));
  provider_id_for = λ t. "p";
  provider_of_model = λ m. none;
  policies = policy ∷ [];
  is_word = λ c. leb 97 c && leb c 122;
  is_digit = λ c. leb 48 c && leb c 57;
  same = λ a b. a == b;
  retry_limit = 1;
}

abbrev asked : RouteTarget
asked = record { model = "big"; provider_id = "" }

abbrev reply_of : Option StreamReply → StreamReply
reply_of none = record { progress = no_progress gateway; fallback_status = ""; error = none }
reply_of (some reply) = reply

streamed_statuses :
    map
      (λ (a : Attempt). a.status)
      (reply_of (stream_events_with_fallbacks gateway asked 0).1).progress.attempts
    ≡ "failed" ∷ "success" ∷ []
unfolding stream_machine
streamed_statuses = refl

streamed_events :
    passed_events (reply_of (stream_events_with_fallbacks gateway asked 0).1).progress.sent
    ≡ dots ∷ word ∷ end ∷ []
unfolding stream_machine
streamed_events = refl

hold_all_lem_example :
    IsHeld (without_done whole.events) (hold_all nothing_yet whole.events)
    ⊎ IsPassedOn (without_done whole.events) (hold_all nothing_yet whole.events)
hold_all_lem_example = hold_all_lem whole.events

empty_run : IsOutcome (shown empty) (shown_whole empty) (finish_stream 1 asked [] empty)
empty_run = finish_stream_lem 1 asked [] empty

stream_events_with_fallbacks_lem_example :
    (reply : StreamReply) × ((stream_events_with_fallbacks gateway asked 0).1 ≡ some reply)
    × IsStreamed gateway reply
stream_events_with_fallbacks_lem_example = stream_events_with_fallbacks_lem gateway asked 0

clock_machine : Unit {0}
unfolding stream_machine says_attempt_timeout first_output_clock idle_clock with_clocks occurs_in
    arrival
clock_machine = tt

abbrev five : ℕ → String
five n = "5"

-- A stream that sends nothing in time.
abbrev dead : Upstream
dead = record { items = []; ending = record { last_wait = 9; failure = none } }

first_clock_alone :
    (with_clocks five 5 0 dead).ending.failure ≡ some (attempt_timeout_error five 5, true)
unfolding clock_machine
first_clock_alone = refl

-- With both clocks on, the clock of the pauses takes the error of the other one for its own, though
-- no output has started, and the target is tried again.
both_clocks : (with_clocks five 5 30 dead).ending.failure ≡ some (idle_timeout_error five 30, true)
unfolding clock_machine
both_clocks = refl

abbrev retryable : Failure → Bool
retryable (e, causes) =
    is_same_target_retryable e causes (classify_upstream_error (λ c. false) (λ c. false) e causes)

tried_again :
    (retryable (attempt_timeout_error five 5) ≡ false)
    × (retryable (idle_timeout_error five 5) ≡ true)
unfolding clock_machine
tried_again = (refl, refl)

abbrev slow_word : List Timed
slow_word =
    record { wait = 2; pause = 0; event = dots } ∷ record { wait = 2; pause = 1; event = word } ∷ []

first_output_clock_lem_example :
    let u = first_output_clock five 5 0 slow_word (record { last_wait = 50; failure = none }) in
    ((u ≡ record { items = slow_word; ending = record { last_wait = 50; failure = none } })
      × (arrival 0 slow_word ≤ 5))
    ⊎ ((hold_all nothing_yet (events_of u)).emitted ≡ false)
first_output_clock_lem_example =
    first_output_clock_lem five 5 slow_word (record { last_wait = 50; failure = none })
