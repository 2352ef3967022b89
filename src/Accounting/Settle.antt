-- ===== src/Accounting/Settle.antt =====
-- The end of a streamed request: what is logged and counted. The writes of the log and of the
-- counters are taken to succeed, as the code takes those of the log.
use llm_aio_gateway.Prelude.{
  ℕ, String, Bool, true, false, not, ◌&&◌, ◌||◌, Option, none, List, [], ◌∷◌, ◌==◌, string_eq,
  if◌then◌else◌, is_empty,
}
use llm_aio_gateway.Dict.{get_or}
use llm_aio_gateway.Outcome.{
  Attempt, Details, OutcomeCounters, apply_outcome_to_details, stats_counters_for_status,
}
use llm_aio_gateway.Outcome.Disconnect.{Raised, is_client_disconnect_error}
use llm_aio_gateway.Accounting.Gather.{Meter, or_text}

-- The keys of an exception's `request_details` that are read.
pub record RequestDetails : Type 0 where
  pub status : Option String
  pub fallback_status : Option String
  pub attempt_index : Option ℕ
  pub fallback_attempts : Option (List Attempt)
  pub partial_output : Option Bool
  pub client_disconnected : Option Bool
  pub attempted_model : Option String
  pub attempted_provider : Option String
  pub stateful_fallback_blocked : Option Bool

abbrev pub no_request_details : RequestDetails
no_request_details = record {
  status = none;
  fallback_status = none;
  attempt_index = none;
  fallback_attempts = none;
  partial_output = none;
  client_disconnected = none;
  attempted_model = none;
  attempted_provider = none;
  stateful_fallback_blocked = none;
}

-- How the rendering ends. An exception is what is read of it, whether it is an `Exception`, and its
-- request details, which count only if it has them.
pub data Ending : Type 0 where
  completed : Ending
  raised : Raised → Bool → RequestDetails → Ending

pub record Entry : Type 0 where
  pub model : String
  pub provider_id : String
  pub success : Bool
  pub tokens : ℕ
  pub status : String

-- A call of `increment_global_stats`.
pub record Count : Type 0 where
  pub success : Bool
  pub is_degraded : Bool
  pub is_rejected : Bool
  pub is_cancelled : Bool
  pub stateful_fallback_blocked : Bool

-- What was logged, counted, and charged to the user; whether the turns of tools only were set back,
-- whether the client got an error, and whether the exception goes on.
pub record Account : Type 0 where
  pub entries : List Entry
  pub counts : List Count
  pub usages : List (Bool × ℕ)
  pub is_reset : Bool
  pub is_told : Bool
  pub is_reraised : Bool

abbrev pub count_of : Bool → OutcomeCounters → Count
count_of success c = record {
  success = success;
  is_degraded = c.is_degraded;
  is_rejected = c.is_rejected;
  is_cancelled = c.is_cancelled;
  stateful_fallback_blocked = false;
}

abbrev pub usage_of : String → Bool → ℕ → List (Bool × ℕ)
usage_of username success tokens = if username == "legacy" then [] else (success, tokens) ∷ []

-- The model and the provider that are logged when the request did not end by itself.
abbrev pub logged : String → String → Meter → Meter
logged model provider m = record m {
  final_model = or_text (or_text m.final_model model) "-";
  final_provider_id = or_text m.final_provider_id provider;
}

abbrev pub entry_of : Meter → Bool → ℕ → String → Entry
entry_of m success tokens status = record {
  model = m.final_model;
  provider_id = m.final_provider_id;
  success = success;
  tokens = tokens;
  status = status;
}

-- The accounting of a success, with its details.
unfoldable pub settle_success : String → Details → Meter → Account
unfolding apply_outcome_to_details stats_counters_for_status
settle_success username details m =
    let d = apply_outcome_to_details true false details in
    let counters = stats_counters_for_status d.status in
    record {
      entries = entry_of m counters.hard_success m.total_tokens d.status ∷ [];
      counts = count_of counters.hard_success counters ∷ [];
      usages = usage_of username counters.hard_success m.total_tokens;
      is_reset = false;
      is_told = false;
      is_reraised = false;
    }

unfoldable pub settle_cancelled : String → Meter → Account
settle_cancelled username m = record {
  entries = entry_of m false m.total_tokens "cancelled" ∷ [];
  counts =
      record {
        success = false;
        is_degraded = false;
        is_rejected = false;
        is_cancelled = true;
        stateful_fallback_blocked = false;
      }
      ∷ [];
  usages = usage_of username false 0;
  is_reset = false;
  is_told = false;
  is_reraised = false;
}

unfoldable pub merge_request_details : RequestDetails → Details → Details
merge_request_details r d = record {
  status = get_or d.status r.status;
  fallback_status = get_or d.fallback_status r.fallback_status;
  attempt_index = get_or d.attempt_index r.attempt_index;
  fallback_attempts = get_or d.fallback_attempts r.fallback_attempts;
  partial_output = get_or d.partial_output r.partial_output;
  client_disconnected = get_or d.client_disconnected r.client_disconnected;
}

unfoldable pub settle_failure : String → String → String → RequestDetails → Meter → Account
unfolding apply_outcome_to_details stats_counters_for_status merge_request_details
settle_failure username model provider r m =
    let partial_output = get_or m.visible_output_started r.partial_output in
    let d =
      apply_outcome_to_details false partial_output (merge_request_details r m.stream_details) in
    let counters = stats_counters_for_status d.status in
    record {
      entries =
          record {
            model =
                or_text
                  (or_text (or_text (get_or m.attempted_model r.attempted_model) m.final_model)
                    model)
                  "-";
            provider_id =
                or_text
                  (or_text (get_or m.attempted_provider r.attempted_provider) m.final_provider_id)
                  provider;
            success = false;
            tokens = m.total_tokens;
            status = d.status;
          }
          ∷ [];
      counts =
          record (count_of false counters) {
            stateful_fallback_blocked =
                get_or m.stateful_fallback_blocked r.stateful_fallback_blocked;
          }
          ∷ [];
      usages = usage_of username false 0;
      is_reset = true;
      is_told = true;
      is_reraised = false;
    }

-- A client that leaves after a whole tool call or a whole message has what it asked for.
unfoldable pub closed_after_output : Meter → Bool
closed_after_output m =
    not (is_empty m.streamed_tool_calls)
    || (m.saw_message_done
        && (not (is_empty m.streamed_text_parts) || not (is_empty m.streamed_reasoning_parts)))

unfoldable pub settle_disconnect : String → Bool → Meter → Account
unfolding settle_success settle_cancelled closed_after_output
settle_disconnect username goes_on m =
    if closed_after_output m
    then record (settle_success username (record m.stream_details { client_disconnected = true })
        m) { is_reset = true; is_reraised = goes_on }
    else record (settle_cancelled username m) { is_reset = true; is_reraised = goes_on }

module _ (shutting_down : Bool) (username model provider : String) where
  unfoldable pub settle : Ending → Meter → Account
  unfolding settle_success settle_disconnect settle_failure is_client_disconnect_error
  settle completed m =
      settle_success username (record m.stream_details { partial_output = false }) m
  settle (raised exc is_exception r) m =
      if is_client_disconnect_error shutting_down exc
      then settle_disconnect username (not (is_exception && not exc.is_cancelled_task))
          (logged model provider m)
      else if not is_exception
      then record {
        entries = [];
        counts = [];
        usages = [];
        is_reset = false;
        is_told = false;
        is_reraised = true;
      }
      else settle_failure username model provider
          (if exc.has_request_details then r else no_request_details) m
