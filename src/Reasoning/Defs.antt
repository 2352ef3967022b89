-- ===== src/Reasoning/Defs.antt =====
-- `inject_reasoning_content`. The source scans from the last message backwards, notes the
-- candidates and stops at the first message that ends the turn; then it writes to the candidates.
-- What it writes depends on the message alone, so the model writes on the way back.
use llm_aio_gateway.Prelude.{
  ℕ, ◌+◌, String, Bool, true, false, not, ◌&&◌, ◌||◌, Option, none, some, List, [], ◌∷◌,
  if◌then◌else◌, any, string_eq,
}
use llm_aio_gateway.Dict.{Dict, get}
use llm_aio_gateway.Messages.{
  PartKind, InternalPart, InternalMessage, is_assistant, tool_call_ids, message_has_text,
  message_has_tool_calls, message_has_reasoning,
}

unfoldable pub reasoning_part : String → InternalPart
reasoning_part s = record { kind = PartKind.reasoning; text = s; tool_call_id = ""; name = "" }

unfoldable pub stops_scan : InternalMessage → Bool
stops_scan m =
    (is_assistant m.role && message_has_reasoning m)
    || (is_assistant m.role && not (message_has_tool_calls m) && message_has_text m)

unfoldable pub is_candidate : InternalMessage → Bool
is_candidate m = is_assistant m.role && message_has_tool_calls m && not (message_has_reasoning m)

unfoldable pub first_known : List String → Dict String String → Option String
first_known [] tool_map = none
first_known (i ∷ is) tool_map =
    let rest = first_known is tool_map in
    elim (get i tool_map) [ none ↦ rest | some text ↦ some text ]

module _ (cached_rc : Option String) (tool_map : Dict String String) (allow_empty : Bool) where
  unfoldable pub chosen_text : InternalMessage → Option String
  chosen_text m = elim (first_known (tool_call_ids m) tool_map) [
    | some text ↦ some text
    | none ↦ elim cached_rc [ some text ↦ some text | none ↦ if allow_empty then some "" else none ]
  ]

  unfoldable pub inject_one : InternalMessage → InternalMessage × ℕ
  unfolding chosen_text reasoning_part
  inject_one m =
      if is_candidate m
      then elim (chosen_text m) [
        | none ↦ (m, 0)
        | some text ↦ (record m { parts = reasoning_part text ∷ m.parts }, 1)
      ]
      else (m, 0)

  -- The messages, the number of injections, and whether the scan has stopped behind them.
  unfoldable pub inject_scan : List InternalMessage → List InternalMessage × ℕ × Bool
  inject_scan [] = ([], 0, false)
  inject_scan (m ∷ ms) =
      let (later, n, stopped) = inject_scan ms in
      if stopped || stops_scan m
      then (m ∷ later, n, true)
      else (let (m', k) = inject_one m in (m' ∷ later, k + n, false))

  unfoldable pub inject_reasoning_content : List InternalMessage → List InternalMessage × ℕ
  inject_reasoning_content ms = let (out, n, stopped) = inject_scan ms in (out, n)

-- has_missing_reasoning_content_for_tool_calls
unfoldable pub has_missing_reasoning : List InternalMessage → Bool
has_missing_reasoning ms =
    any (λ m. is_assistant m.role && message_has_tool_calls m && not (message_has_reasoning m)) ms
