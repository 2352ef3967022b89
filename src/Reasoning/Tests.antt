-- ===== src/Reasoning/Tests.antt =====
-- Runs of the injection, and its theorems at a concrete history.
use llm_aio_gateway.Prelude.{
  ◌++◌, map, String, ◌≡◌, refl, true, false, none, some, List, [], ◌∷◌, has_content,
}
use llm_aio_gateway.Dict.{Dict, get}
use llm_aio_gateway.Messages.{
  PartKind, Role, InternalMessage, keep_if, nonempty_ids, tool_call_ids, message_has_text,
  message_has_tool_calls, message_has_reasoning,
}
use llm_aio_gateway.Reasoning.Defs.{
  reasoning_part, stops_scan, is_candidate, first_known, chosen_text, inject_one, inject_scan,
  inject_reasoning_content, has_missing_reasoning,
}
use llm_aio_gateway.Reasoning.Laws.{
  before_turn, after_turn, with_reasoning, inject_reasoning_content_lem, has_missing-inject,
}

machine : Unit {0}
unfolding reasoning_part stops_scan is_candidate first_known chosen_text inject_one inject_scan
    inject_reasoning_content has_missing_reasoning before_turn keep_if nonempty_ids tool_call_ids
    message_has_text message_has_tool_calls message_has_reasoning get has_content
machine = tt

abbrev turn : String → InternalMessage
turn id = record {
  role = Role.assistant;
  parts = record { kind = PartKind.tool_call; text = ""; tool_call_id = id; name = "f" } ∷ [];
}

abbrev answer : InternalMessage
answer = record {
  role = Role.assistant;
  parts = record { kind = PartKind.text; text = "done"; tool_call_id = ""; name = "" } ∷ [];
}

abbrev history : List InternalMessage
history = turn "a" ∷ answer ∷ turn "b" ∷ turn "c" ∷ []

abbrev thoughts : Dict String String
thoughts = ("c", "because") ∷ []

injected_twice : (inject_reasoning_content (some "cached") thoughts false history).1 ≡ 2
unfolding machine
injected_twice = refl

nothing_cached : (inject_reasoning_content none thoughts false history).1 ≡ 1
unfolding machine
nothing_cached = refl

inject_reasoning_content_lem_example :
    let once = (inject_reasoning_content (some "cached") thoughts false history).0 in
    (once
      ≡ before_turn history ++ map (with_reasoning "cached" thoughts false) (after_turn history))
    × (inject_reasoning_content (some "cached") thoughts false once ≡ (once, 0))
inject_reasoning_content_lem_example = inject_reasoning_content_lem "cached" thoughts false history

missing_before_turn :
    has_missing_reasoning (inject_reasoning_content (some "cached") thoughts false history).0 ≡ true
unfolding machine
missing_before_turn = has_missing-inject "cached" thoughts false history
