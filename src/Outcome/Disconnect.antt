-- ===== src/Outcome/Disconnect.antt =====
-- `is_client_disconnect_error` of app/core/outcome.py. An exception is what the code reads of it: the
-- answers of its `isinstance` tests, the module and the name of its type, and its text.
use Prim.Native.Char.{code}
use llm_aio_gateway.Prelude.{
  String, Bool, true, false, not, ◌&&◌, ◌||◌, List, [], ◌∷◌, ◌==◌, nat_eq, string_eq, if◌then◌else◌,
  codes, any, map,
}
use llm_aio_gateway.Routing.{occurs_in}
use llm_aio_gateway.Outcome.Defs.{lower}

pub record Raised : Type 0 where
  pub is_generator_exit : Bool
  -- asyncio.CancelledError
  pub is_cancelled_task : Bool
  -- `request_details` is a dict
  pub has_request_details : Bool
  -- ConnectionResetError, BrokenPipeError or ConnectionAbortedError
  pub is_broken_connection : Bool
  pub module_name : String
  pub type_name : String
  pub text : String

-- `module.split(".")[0]`
unfoldable pub first_segment : String → String
first_segment String.[] = ""
first_segment (String.◌∷◌ c s) =
    let rest = first_segment s in if code c == b'.' then "" else String.◌∷◌ c rest

abbrev pub is_one_of : List String → String → Bool
is_one_of names s = any (λ n. s == n) names

-- `word in text.lower()`
abbrev mentions_lower : String → String → Bool
mentions_lower word text = occurs_in (codes word) (map lower (codes text))

unfoldable pub is_client_disconnect_error : Bool → Raised → Bool
unfolding first_segment occurs_in
is_client_disconnect_error shutting_down exc =
    if exc.is_generator_exit
    then true
    else if exc.is_cancelled_task
    then not shutting_down
    else if exc.has_request_details
    then false
    else if is_one_of ("httpx" ∷ "httpcore" ∷ []) (first_segment exc.module_name)
    then false
    else if is_one_of
        ("ClientDisconnect" ∷ "CancelledError" ∷ "BrokenResourceError" ∷ "ClosedResourceError" ∷ [])
        exc.type_name
    then true
    else if occurs_in (codes "starlette") (codes exc.module_name)
        && mentions_lower "disconnect" exc.type_name
    then true
    else if exc.is_broken_connection
    then true
    else mentions_lower "client disconnected" exc.text
      || mentions_lower "client has disconnected" exc.text
