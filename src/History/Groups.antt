-- ===== src/History/Groups.antt =====
-- What a history that strict upstreams take looks like, and one round of the repair.
use llm_aio_gateway.Prelude.{
  String, ◌≡◌, ap, Bool, true, false, not, ◌&&◌, ◌||◌, List, [], ◌∷◌, ◌++◌, string_eq, nat_eq, any,
  all, All, is_nonempty, arith,
}
use llm_aio_gateway.Dict.{contains, contains-append, AreDistinct}
use llm_aio_gateway.Messages.{
  InternalPart, InternalMessage, is_assistant, is_call, is_result, keep_if, ids_of, nonempty_ids,
  tool_result_ids,
}
use llm_aio_gateway.History.Defs.{
  is_named, drop_unnamed, all_result_ids, accepted_ids, keep_calls, clean_responses,
}
use llm_aio_gateway.History.Keep.{
  call_ids, results_of, contains-nonempty_ids, contains-accepted_ids, contains-keep_calls,
  contains-clean_responses,
}
use llm_aio_gateway.History.Unchanged.{calls-drop_unnamed}

abbrev pub has_calls : InternalMessage → Bool
has_calls m = any is_call m.parts

abbrev pub has_results : InternalMessage → Bool
has_results m = any is_result m.parts

-- No message holds both calls and results.
abbrev pub IsApart : InternalMessage → Type 0
IsApart m = has_results m ≡ true → has_calls m ≡ false

-- A message that is no part of a tool round.
pub record IsPlain (m : InternalMessage) : Type 0 where
  pub no_results : has_results m ≡ false
  pub no_calls : (is_assistant m.role && has_calls m) ≡ false

-- An assistant message whose calls are all named and differ in their ids, with messages that hold
-- together exactly one result for each of them, and no other result and no call.
pub record IsAnswered (m : InternalMessage) (rs : List InternalMessage) : Type 0 where
  pub from_assistant : is_assistant m.role ≡ true
  pub no_results : has_results m ≡ false
  pub named : all (λ p. not (is_call p) || is_named p) m.parts ≡ true
  pub distinct : AreDistinct (call_ids m.parts)
  pub answered_once : AreDistinct (results_of rs)
  pub answered : (i : String) → contains i (call_ids m.parts) ≡ contains i (results_of rs)
  pub no_calls : All (λ r. has_calls r ≡ false) rs

-- Groups of calls with their answers, and plain messages between the groups; each message among the
-- answers has the property `P`.
pub data Balanced (P : InternalMessage → Type 0) : List InternalMessage → Type 0 where
  done : Balanced P []
  plain :
      (m : InternalMessage) (ms : List InternalMessage)
      → IsPlain m
      → Balanced P ms
      → Balanced P (m ∷ ms)
  group :
      (m : InternalMessage) (rs ms : List InternalMessage)
      → IsAnswered m rs
      → All P rs
      → Balanced P ms
      → Balanced P (m ∷ rs ++ ms)

contains-all_result_ids :
    (i : String) (rs : List InternalMessage)
    → contains i (all_result_ids rs) ≡ (is_nonempty i && contains i (results_of rs))
unfolding all_result_ids results_of tool_result_ids contains
contains-all_result_ids i [] = ground arith
contains-all_result_ids i (r ∷ rs) = ground (
  arith,
  contains-append i (tool_result_ids r) (all_result_ids rs),
  contains-append i (ids_of (keep_if is_result r.parts)) (results_of rs),
  contains-nonempty_ids i (keep_if is_result r.parts),
  contains-all_result_ids i rs,
)

-- The parts of a group's assistant message after the round.
abbrev pub group_accepted : InternalMessage → List InternalMessage → List String
group_accepted m rs =
    accepted_ids (nonempty_ids (keep_if is_named (keep_if is_call m.parts))) (all_result_ids rs)

abbrev pub group_parts : InternalMessage → List InternalMessage → List InternalPart
group_parts m rs = keep_calls (group_accepted m rs) [] (drop_unnamed m.parts)

abbrev pub group_answers : InternalMessage → List InternalMessage → List InternalMessage
group_answers m rs = (clean_responses (group_accepted m rs) [] rs).0

contains-group_accepted :
    (i : String) (m : InternalMessage) (rs : List InternalMessage)
    → contains i (group_accepted m rs) ≡ (
        is_nonempty i && contains i (call_ids (drop_unnamed m.parts)) && contains i (results_of rs))
contains-group_accepted i m rs = ground (
  arith,
  contains-accepted_ids i (nonempty_ids (keep_if is_named (keep_if is_call m.parts)))
      (all_result_ids rs),
  contains-nonempty_ids i (keep_if is_named (keep_if is_call m.parts)),
  contains-all_result_ids i rs,
  ap ids_of (calls-drop_unnamed m.parts),
)

pub group_answered :
    (i : String) (m : InternalMessage) (rs : List InternalMessage)
    → contains i (call_ids (group_parts m rs)) ≡ contains i (results_of (group_answers m rs))
unfolding contains
group_answered i m rs = ground (
  arith,
  contains-group_accepted i m rs,
  contains-keep_calls i (group_accepted m rs) [] (drop_unnamed m.parts),
  contains-clean_responses i (group_accepted m rs) [] rs,
)
