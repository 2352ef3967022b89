-- ===== src/Merging/Tests.antt =====
-- A request whose messages are merged.
use llm_aio_gateway.Prelude.{String, ◌≡◌, refl, List, [], ◌∷◌, length}
use llm_aio_gateway.Messages.{PartKind, Role, InternalPart, InternalMessage}
use llm_aio_gateway.Merging.Defs.{
  message_parts_are_text_only, join_texts, merge_parts, combine_all, messages_where, gather_systems,
  merge_run, merge_adjacent, normalize_messages,
}
use llm_aio_gateway.Merging.Laws.{IsMerged, normalize_messages-IsMerged}

machine : Unit {0}
unfolding message_parts_are_text_only join_texts merge_parts combine_all messages_where
    gather_systems merge_run merge_adjacent normalize_messages
machine = tt

abbrev words : String → InternalPart
words t = record { kind = PartKind.text; text = t; tool_call_id = ""; name = "" }

abbrev picture : InternalPart
picture = record { kind = PartKind.image; text = ""; tool_call_id = ""; name = "" }

abbrev says : Role → List InternalPart → InternalMessage
says r ps = record { role = r; parts = ps }

-- Two system messages with messages of the user between them and after them.
abbrev request : List InternalMessage
request =
    says Role.system (words "a" ∷ [])
    ∷ says Role.user (words "b" ∷ [])
    ∷ says Role.user (words "c" ∷ [])
    ∷ says Role.user (picture ∷ [])
    ∷ says Role.assistant (words "d" ∷ [])
    ∷ says Role.system (words "e" ∷ [])
    ∷ []

abbrev unchanged : String → String
unchanged t = t

merged_request :
    normalize_messages unchanged request
    ≡ says Role.system (words "a\n\ne" ∷ [])
      ∷ says Role.user (words "b\n\nc" ∷ picture ∷ [])
      ∷ says Role.assistant (words "d" ∷ [])
      ∷ []
unfolding machine
merged_request = refl

-- The messages of the user around a system message are not merged when it moves to the front.
apart_users :
    length (
      normalize_messages unchanged
        (says Role.system [] ∷ says Role.user [] ∷ says Role.system [] ∷ says Role.user [] ∷ []))
    ≡ 3
unfolding machine
apart_users = refl

normalize_messages-IsMerged_example : IsMerged request (normalize_messages unchanged request)
normalize_messages-IsMerged_example = normalize_messages-IsMerged unchanged request
