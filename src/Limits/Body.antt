-- ===== src/Limits/Body.antt =====
-- `RequestBodyLimitMiddleware` of app/core/body_limit.py. The application below it is the sequence of
-- what it does to its channels; a number that is not positive is read as 0.
use llm_aio_gateway.Prelude.{
  ℕ, ◌+◌, max, String, Bool, true, false, not, ◌&&◌, Option, none, some, List, [], ◌∷◌, ◌==◌,
  string_eq, nat_eq, if◌then◌else◌, ltb, any,
}
use llm_aio_gateway.Dict.{Dict, get_or}

abbrev pub default_max_request_body_bytes : ℕ
default_max_request_body_bytes = 134217728

-- `none` is a setting that `int` refuses.
unfoldable pub max_request_body_bytes : Option ℕ → ℕ
max_request_body_bytes setting =
    let configured = get_or default_max_request_body_bytes setting in
    if configured == 0 then 0 else max 1024 configured

-- The first content-length header, where `int` reads it.
unfoldable pub declared_length : Dict String (Option ℕ) → Option ℕ
declared_length [] = none
declared_length ((name, value) ∷ headers) =
    let rest = declared_length headers in if name == "content-length" then value else rest

-- A message of the body of some bytes is received, or another one; the response is started, or
-- another message is sent.
pub data Event : Type 0 where
  received : ℕ → Event
  received_other started sent : Event

-- The application ran to its end; the client gets a 413; the exception goes up to the server.
pub data Verdict : Type 0 where
  served too_large broken_off : Verdict

unfoldable pub run_limited : ℕ → ℕ → Bool → List Event → Verdict
run_limited limit consumed is_started [] = served
run_limited limit consumed is_started (received n ∷ events) =
    let rest = run_limited limit (consumed + n) is_started events in
    if ltb limit (consumed + n) then (if is_started then broken_off else too_large) else rest
run_limited limit consumed is_started (received_other ∷ events) =
    run_limited limit consumed is_started events
run_limited limit consumed is_started (started ∷ events) = run_limited limit consumed true events
run_limited limit consumed is_started (sent ∷ events) = run_limited limit consumed is_started events

abbrev pub over : ℕ → Option ℕ → Bool
over limit none = false
over limit (some n) = ltb limit n

abbrev pub is_limited : String → String → Bool
is_limited kind method = kind == "http" && any (λ m. method == m) ("POST" ∷ "PUT" ∷ "PATCH" ∷ [])

-- RequestBodyLimitMiddleware.__call__
unfoldable pub limit_body :
    Option ℕ → String → String → Dict String (Option ℕ) → List Event → Verdict
unfolding max_request_body_bytes declared_length run_limited
limit_body setting kind method headers events =
    let limit = max_request_body_bytes setting in
    if not (is_limited kind method)
    then served
    else if limit == 0
    then served
    else if over limit (declared_length headers)
    then too_large
    else run_limited limit 0 false events
