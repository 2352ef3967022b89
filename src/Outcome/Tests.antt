-- ===== src/Outcome/Tests.antt =====
-- Runs of the derivation.
use llm_aio_gateway.Prelude.{◌&&◌, ◌||◌, String, ◌≡◌, refl, true, false, some, [], ◌∷◌, is_space}
use llm_aio_gateway.Outcome.Defs.{
  name_of, degraded, cancelled, Attempt, Details, read_status, has_fallback_success,
  success_after_fail, is_fallback_used, resolve_request_status, apply_outcome_to_details,
  stats_counters_for_status,
}
use llm_aio_gateway.Outcome.Laws.{resolve-apply_outcome, hard_success_iff}
use llm_aio_gateway.Routing.{occurs_in}
use llm_aio_gateway.Outcome.Disconnect.{Raised, first_segment, is_client_disconnect_error}

machine : Unit {0}
unfolding is_space read_status has_fallback_success success_after_fail is_fallback_used
    resolve_request_status apply_outcome_to_details stats_counters_for_status
machine = tt

abbrev attempt : String → Attempt
attempt status = record {
  index = 0;
  stage = "primary";
  model = "m";
  provider_id = "p";
  status = status;
  trigger = "";
}

-- A first target that fails once and then succeeds, with no other target tried.
abbrev retried : Details
retried = record {
  status = "";
  fallback_status = "unused";
  attempt_index = 0;
  fallback_attempts = attempt "failed" ∷ attempt "success" ∷ [];
  partial_output = false;
  client_disconnected = false;
}

retried_status : resolve_request_status true false retried ≡ degraded
unfolding machine
retried_status = refl

read_padded : read_status " Cancelled\t" ≡ some cancelled
unfolding machine
read_padded = refl

cut_off : (apply_outcome_to_details false true retried).status ≡ "partial"
unfolding machine
cut_off = refl

resolve-apply_outcome_example :
    let status = resolve_request_status false true retried in
    let written = apply_outcome_to_details false true retried in
    (written.status ≡ name_of status)
    × (read_status written.status ≡ some status)
    × (resolve_request_status false true written ≡ status)
resolve-apply_outcome_example = resolve-apply_outcome false true retried

hard_success_iff_run :
    let counters = stats_counters_for_status (apply_outcome_to_details true false retried).status in
    (counters.hard_success ≡ true)
    × ((counters.is_degraded && false) ≡ false)
    × ((counters.is_rejected || counters.is_cancelled) ≡ false)
hard_success_iff_run = hard_success_iff true false retried

-- The upstream's connection was reset, in the words of a client that left.
abbrev reset_upstream : Raised
reset_upstream = record {
  is_generator_exit = false;
  is_cancelled_task = false;
  has_request_details = false;
  is_broken_connection = true;
  module_name = "httpx._exceptions";
  type_name = "ReadError";
  text = "Client disconnected";
}

upstream_reset : is_client_disconnect_error false reset_upstream ≡ false
unfolding machine first_segment is_client_disconnect_error occurs_in
upstream_reset = refl

client_reset :
    is_client_disconnect_error false (record reset_upstream { module_name = "builtins" }) ≡ true
unfolding machine first_segment is_client_disconnect_error occurs_in
client_reset = refl
