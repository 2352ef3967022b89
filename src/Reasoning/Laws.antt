-- ===== src/Reasoning/Laws.antt =====
-- The injection is complete for the turn that it reaches, and a second run adds nothing.
use llm_aio_gateway.Prelude.{
  map, ◌++◌, String, ◌≡◌, refl, Bool, true, false, not, ◌&&◌, ◌||◌, none, some, List, [], ◌∷◌,
  if◌then◌else◌, any, arith, Bool-cases, Option-cases, inl, inr, string_eq, nat_eq, ◌==◌,
}
use llm_aio_gateway.Dict.{Dict}
use llm_aio_gateway.Messages.{
  PartKind, InternalMessage, is_assistant, tool_call_ids, message_has_tool_calls,
  message_has_reasoning,
}
use llm_aio_gateway.Reasoning.Defs.{
  reasoning_part, stops_scan, is_candidate, first_known, chosen_text, inject_one, inject_scan,
  inject_reasoning_content, has_missing_reasoning,
}

module _ (cached : String) (tool_map : Dict String String) (allow_empty : Bool) where
  -- With a cached text there is always one to inject.
  chosen_text_cached :
      (m : InternalMessage)
      → (text : String) × (chosen_text (some cached) tool_map allow_empty m ≡ some text)
  unfolding chosen_text
  chosen_text_cached m = elim (Option-cases (first_known (tool_call_ids m) tool_map)) [
    | inl unknown ↦ (cached, rw (unknown, chosen_text))
    | inr (text, known) ↦ (text, rw (known, chosen_text))
  ]

  injected_stops :
      (m : InternalMessage)
      → is_candidate m ≡ true
      → stops_scan (inject_one (some cached) tool_map allow_empty m).0 ≡ true
  unfolding inject_one stops_scan message_has_reasoning is_candidate
  injected_stops m h = let (text, chosen) = chosen_text_cached m in rw (h, chosen) (ground arith)

  not_missing_after :
      (m : InternalMessage)
      → (is_assistant (inject_one (some cached) tool_map allow_empty m).0.role
          && message_has_tool_calls (inject_one (some cached) tool_map allow_empty m).0
          && not (message_has_reasoning (inject_one (some cached) tool_map allow_empty m).0))
        ≡ false
  unfolding inject_one message_has_reasoning is_candidate
  not_missing_after m =
      let (text, chosen) = chosen_text_cached m in
      elim (Bool-cases (is_candidate m)) [
        | inl candidate ↦ rw (candidate, chosen) (ground arith)
        | inr other ↦ rw other other
      ]

  inject_one_other :
      (m : InternalMessage)
      → is_candidate m ≡ false
      → inject_one (some cached) tool_map allow_empty m ≡ (m, 0)
  unfolding inject_one
  inject_one_other m h = rw h

  inject_one_count :
      (m : InternalMessage)
      → is_candidate m ≡ true
      → (inject_one (some cached) tool_map allow_empty m).1 ≡ 1
  unfolding inject_one
  inject_one_count m h = let (text, chosen) = chosen_text_cached m in rw (h, chosen)

  scan_again :
      (ms : List InternalMessage)
      → let r = inject_scan (some cached) tool_map allow_empty ms in
        inject_scan (some cached) tool_map allow_empty r.0 ≡ (r.0, 0, r.2 || not (r.1 == 0))
  unfolding inject_scan
  scan_again [] = refl
  scan_again (m ∷ ms) =
      ground (arith, scan_again ms, injected_stops m, inject_one_other m, inject_one_count m)

  scan-stopped :
      (ms : List InternalMessage)
      → (inject_scan (some cached) tool_map allow_empty ms).2 ≡ any stops_scan ms
  unfolding inject_scan
  scan-stopped [] = refl
  scan-stopped (m ∷ ms) = ground (arith, scan-stopped ms)

-- The messages up to the last one that ends a turn, itself included.
unfoldable pub before_turn : List InternalMessage → List InternalMessage
before_turn [] = []
before_turn (m ∷ ms) = let rest = before_turn ms in if any stops_scan (m ∷ ms) then m ∷ rest else []

before_turn_none : (ms : List InternalMessage) → any stops_scan ms ≡ false → before_turn ms ≡ []
unfolding before_turn
before_turn_none [] h = refl
before_turn_none (m ∷ ms) h = rw h

-- The messages of the current turn: those after the last one that ends a turn.
unfoldable pub after_turn : List InternalMessage → List InternalMessage
after_turn [] = []
after_turn (m ∷ ms) = let rest = after_turn ms in if any stops_scan (m ∷ ms) then rest else m ∷ ms

after_turn_all : (ms : List InternalMessage) → any stops_scan ms ≡ false → after_turn ms ≡ ms
unfolding after_turn
after_turn_all [] h = refl
after_turn_all (m ∷ ms) h = rw h

module _ (cached : String) (tool_map : Dict String String) (allow_empty : Bool) where
  -- The text for a message: the one that is known for the first of its tool calls with any, or else
  -- the cached one.
  abbrev pub text_for : InternalMessage → String
  text_for m = elim (first_known (tool_call_ids m) tool_map) [ none ↦ cached | some text ↦ text ]

  -- A message of the assistant with tool calls and no reasoning gets its text as the first part.
  abbrev pub with_reasoning : InternalMessage → InternalMessage
  with_reasoning m =
      if is_assistant m.role && message_has_tool_calls m && not (message_has_reasoning m)
      then record m {
        parts =
            record { kind = PartKind.reasoning; text = text_for m; tool_call_id = ""; name = "" }
            ∷ m.parts;
      }
      else m

  inject_one-with :
      (m : InternalMessage) → (inject_one (some cached) tool_map allow_empty m).0 ≡ with_reasoning m
  unfolding inject_one is_candidate chosen_text reasoning_part
  inject_one-with m = ground arith

  scan-with :
      (ms : List InternalMessage)
      → (inject_scan (some cached) tool_map allow_empty ms).0
        ≡ before_turn ms ++ map with_reasoning (after_turn ms)
  unfolding inject_scan before_turn after_turn
  scan-with [] = refl
  scan-with (m ∷ ms) = ground (
    arith,
    scan-with ms,
    scan-stopped cached tool_map allow_empty ms,
    inject_one-with m,
    before_turn_none ms,
    after_turn_all ms,
  )

  scan_twice :
      (ms : List InternalMessage)
      → let once = (inject_reasoning_content (some cached) tool_map allow_empty ms).0 in
        inject_reasoning_content (some cached) tool_map allow_empty once ≡ (once, 0)
  unfolding inject_reasoning_content
  scan_twice ms = ground (arith, scan_again cached tool_map allow_empty ms)

  -- With a cached text: up to the last message that ends a turn, the messages stay as they are, and
  -- behind it each message of the assistant with tool calls and no reasoning gets, as its first part,
  -- the text that is known for the first of its tool calls with any, or else the cached one; the others
  -- stay as they are. A second injection adds nothing and changes nothing.
  pub inject_reasoning_content_lem :
      (ms : List InternalMessage)
      → let once = (inject_reasoning_content (some cached) tool_map allow_empty ms).0 in
        (once ≡ before_turn ms ++ map with_reasoning (after_turn ms))
        × (inject_reasoning_content (some cached) tool_map allow_empty once ≡ (once, 0))
  unfolding inject_reasoning_content
  inject_reasoning_content_lem ms = (scan-with ms, scan_twice ms)

  scan-missing :
      (ms : List InternalMessage)
      → has_missing_reasoning (inject_scan (some cached) tool_map allow_empty ms).0
        ≡ has_missing_reasoning (before_turn ms)
  unfolding inject_scan has_missing_reasoning before_turn
  scan-missing [] = refl
  scan-missing (m ∷ ms) = ground (
    arith,
    scan-missing ms,
    scan-stopped cached tool_map allow_empty ms,
    not_missing_after cached tool_map allow_empty m,
    before_turn_none ms,
  )

  -- With a cached text, the tool calls that still lack a reasoning text after the injection are
  -- those up to the last message that ends a turn: the current turn lacks none.
  pub has_missing-inject :
      (ms : List InternalMessage)
      → has_missing_reasoning (inject_reasoning_content (some cached) tool_map allow_empty ms).0
        ≡ has_missing_reasoning (before_turn ms)
  unfolding inject_reasoning_content
  has_missing-inject ms = scan-missing ms
