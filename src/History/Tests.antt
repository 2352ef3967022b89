-- ===== src/History/Tests.antt =====
-- Runs of the repair.
use llm_aio_gateway.Prelude.{true, String, ◌≡◌, refl, List, [], ◌∷◌, has_content}
use llm_aio_gateway.Dict.{contains}
use llm_aio_gateway.Messages.{
  PartKind, Role, InternalPart, InternalMessage, keep_if, ids_of, nonempty_ids, tool_call_ids,
  tool_result_ids, message_has_payload,
}
use llm_aio_gateway.History.Defs.{
  drop_unnamed, responses, after_responses, all_result_ids, accepted_ids, keep_calls, keep_results,
  kept_after, clean_responses, clean_group, clean, sanitize_tool_history,
}
use llm_aio_gateway.History.Groups.{has_results, Balanced}
use llm_aio_gateway.History.Balance.{
  sanitize_tool_history-Balanced, sanitize_tool_history-IsFollowed,
}

machine : Unit {0}
unfolding drop_unnamed responses after_responses all_result_ids accepted_ids keep_calls keep_results
    kept_after clean_responses clean_group clean sanitize_tool_history contains keep_if ids_of
    nonempty_ids tool_call_ids tool_result_ids message_has_payload has_content
machine = tt

abbrev call : String → String → InternalPart
call id name = record { kind = PartKind.tool_call; text = ""; tool_call_id = id; name = name }

abbrev answer : String → InternalPart
answer id = record { kind = PartKind.tool_result; text = "ok"; tool_call_id = id; name = "" }

abbrev said : String → InternalPart
said s = record { kind = PartKind.text; text = s; tool_call_id = ""; name = "" }

abbrev message : Role → List InternalPart → InternalMessage
message role parts = record { role = role; parts = parts }

-- A nameless call, an unanswered one, and an answer to neither, are removed.
abbrev history : List InternalMessage
history =
    message Role.user (said "hi" ∷ [])
    ∷ message Role.assistant (call "a" "f" ∷ call "b" "" ∷ call "c" "g" ∷ [])
    ∷ message Role.tool (answer "a" ∷ answer "b" ∷ [])
    ∷ []

cleaned_history : sanitize_tool_history history ≡ (
  message Role.user (said "hi" ∷ [])
      ∷ message Role.assistant (call "a" "f" ∷ [])
      ∷ message Role.tool (answer "a" ∷ [])
      ∷ [],
  3,
)
unfolding machine
cleaned_history = refl

-- An answer to no call that stands with a text before the real answer leaves the text between the
-- call and its answer, and a second run then removes both.
abbrev split_history : List InternalMessage
split_history =
    message Role.assistant (call "a" "f" ∷ [])
    ∷ message Role.user (answer "x" ∷ said "note" ∷ [])
    ∷ message Role.tool (answer "a" ∷ [])
    ∷ []

split_once : sanitize_tool_history split_history ≡ (
  message Role.assistant (call "a" "f" ∷ [])
      ∷ message Role.user (said "note" ∷ [])
      ∷ message Role.tool (answer "a" ∷ [])
      ∷ [],
  1,
)
unfolding machine
split_once = refl

split_twice :
    sanitize_tool_history (sanitize_tool_history split_history).0
    ≡ (message Role.user (said "note" ∷ []) ∷ [], 3)
unfolding machine
split_twice = refl

sanitize_tool_history-Balanced_example : Balanced (λ r. Unit {0}) (sanitize_tool_history history).0
sanitize_tool_history-Balanced_example =
    sanitize_tool_history-Balanced history ((λ h. refl), ((λ h. cc), ((λ h. refl), tt)))

sanitize_tool_history-IsFollowed_example :
    Balanced (λ r. has_results r ≡ true) (sanitize_tool_history history).0
sanitize_tool_history-IsFollowed_example =
    sanitize_tool_history-IsFollowed history ((λ h. cc), ((λ h. cc), ((λ h. refl), tt)))
