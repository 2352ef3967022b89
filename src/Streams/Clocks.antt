-- ===== src/Streams/Clocks.antt =====
-- The two clocks around the events of an attempt: `_iter_events_with_first_output_timeout` of
-- app/router/proxy.py, and `iter_output_idle_timeout` of app/core/streaming.py around it. Times are
-- in ticks, and an event that comes in the last one is in time.
use Prim.Native.String
use llm_aio_gateway.Prelude.{
  ℕ, ◌+◌, ◌-◌, String, Bool, true, false, not, ◌&&◌, ◌||◌, Option, none, some, List, [], ◌∷◌, map,
  if◌then◌else◌, ltb, leb, codes,
}
use llm_aio_gateway.Routing.{occurs_in}
use llm_aio_gateway.Attempts.Defs.{Failure}
use llm_aio_gateway.Streams.Events.{Event, is_visible, starts_client_clock}
use llm_aio_gateway.Streams.Opened.{Run}

-- An event with the time that it is waited for, and the time until the next one is asked for.
pub record Timed : Type 0 where
  pub wait : ℕ
  pub pause : ℕ
  pub event : Event

-- How a stream ends: after a wait, with a failure if there is one, and whether that is a TimeoutError.
pub record Ending : Type 0 where
  pub last_wait : ℕ
  pub failure : Option (Failure × Bool)

pub record Upstream : Type 0 where
  pub items : List Timed
  pub ending : Ending

abbrev pub then_item : Timed → Upstream → Upstream
then_item x u = record u { items = x ∷ u.items }

abbrev pub stopped : ℕ → Failure → Upstream
stopped wait e = record {
  items = [];
  ending = record { last_wait = wait; failure = some (e, true) };
}

abbrev timeout_exc : String → Failure
timeout_exc text = (
  record {
    is_timeout = true;
    is_http = false;
    is_network = false;
    is_internal = false;
    status_code = none;
    response_status = none;
    text = text;
    type_name = "timeouterror";
  },
  [],
)

abbrev pub is_timeout_error : Option (Failure × Bool) → Bool
is_timeout_error none = false
is_timeout_error (some (e, b)) = b

-- `"fallback attempt timeout" in str(exc)`
unfoldable pub says_attempt_timeout : Option (Failure × Bool) → Bool
unfolding occurs_in
says_attempt_timeout none = false
says_attempt_timeout (some (e, b)) = occurs_in (codes "fallback attempt timeout") (codes (e.0).text)

-- `str` of a number
module _ (show : ℕ → String) where
  abbrev pub attempt_timeout_error : ℕ → Failure
  attempt_timeout_error seconds =
      timeout_exc (String.◌++◌ "fallback attempt timeout after " (String.◌++◌ (show seconds) "s"))

  abbrev pub idle_timeout_error : ℕ → Failure
  idle_timeout_error seconds = timeout_exc (
      String.◌++◌ "upstream stream idle for " (String.◌++◌ (show seconds) "s after output started"))

  -- The clock of the first output, from the time that has passed. A TimeoutError of the upstream
  -- counts as one of the clock until the first output.
  unfoldable pub first_output_clock : ℕ → ℕ → List Timed → Ending → Upstream
  unfolding starts_client_clock says_attempt_timeout
  first_output_clock limit now [] ending =
      if leb limit now || ltb (limit - now) ending.last_wait
      then stopped (limit - now) (attempt_timeout_error limit)
      else if is_timeout_error ending.failure && not (says_attempt_timeout ending.failure)
      then stopped ending.last_wait (attempt_timeout_error limit)
      else record { items = []; ending = ending }
  first_output_clock limit now (x ∷ xs) ending =
      let waiting = first_output_clock limit (now + x.wait + x.pause) xs ending in
      if leb limit now || ltb (limit - now) x.wait
      then stopped (limit - now) (attempt_timeout_error limit)
      else if starts_client_clock x.event
      then record { items = x ∷ xs; ending = ending }
      else then_item x waiting

  -- The clock of the pauses, which runs once an output was visible. Each TimeoutError is taken for
  -- one of this clock.
  unfoldable pub idle_clock : ℕ → Bool → List Timed → Ending → Upstream
  unfolding is_visible
  idle_clock idle started [] ending =
      if started && ltb idle ending.last_wait
      then stopped idle (idle_timeout_error idle)
      else if is_timeout_error ending.failure
      then stopped ending.last_wait (idle_timeout_error idle)
      else record { items = []; ending = ending }
  idle_clock idle started (x ∷ xs) ending =
      let rest = idle_clock idle (started || is_visible x.event) xs ending in
      if started && ltb idle x.wait
      then stopped idle (idle_timeout_error idle)
      else then_item x rest

  -- A clock that is set to 0 is off.
  unfoldable pub with_clocks : ℕ → ℕ → Upstream → Upstream
  unfolding first_output_clock idle_clock
  with_clocks limit idle u =
      let first = if ltb 0 limit then first_output_clock limit 0 u.items u.ending else u in
      if ltb 0 idle then idle_clock idle false first.items first.ending else first

abbrev failed_with : Option (Failure × Bool) → Option Failure
failed_with none = none
failed_with (some (e, b)) = some e

-- What the loop sees of it.
abbrev pub run_of : String → Upstream → Run
run_of provider u = record {
  adapter_provider_id = provider;
  events = map (λ (x : Timed). x.event) u.items;
  failure = failed_with u.ending.failure;
}
