-- ===== src/History/Defs.antt =====
-- `sanitize_tool_history` of app/core/policy.py.
use llm_aio_gateway.Prelude.{
  ℕ, zero, suc, ◌+◌, ◌-◌, String, Bool, not, ◌&&◌, ◌||◌, List, [], ◌∷◌, ◌++◌, ◌==◌, string_eq,
  nat_eq, if◌then◌else◌, length, is_empty, any, has_content,
}
use llm_aio_gateway.Dict.{contains}
use llm_aio_gateway.Messages.{
  InternalPart, InternalMessage, is_assistant, is_tool, is_call, is_result, keep_if, nonempty_ids,
  tool_result_ids, message_has_payload,
}

-- `(part.name or "").strip()` is true
abbrev pub is_named : InternalPart → Bool
is_named p = has_content p.name

-- The first `if` of the branch: parts with a nameless call are filtered out.
unfoldable pub drop_unnamed : List InternalPart → List InternalPart
drop_unnamed parts =
    let calls = keep_if is_call parts in
    if length (keep_if is_named calls) == length calls
    then parts
    else keep_if (λ p. not (is_call p) || is_named p) parts

-- The inner `while`: the messages that carry result ids, up to the first one that carries none.
unfoldable pub responses : List InternalMessage → List InternalMessage
responses [] = []
responses (m ∷ ms) =
    let rest = responses ms in if is_empty (tool_result_ids m) then [] else m ∷ rest

unfoldable pub after_responses : List InternalMessage → List InternalMessage
after_responses [] = []
after_responses (m ∷ ms) =
    let rest = after_responses ms in if is_empty (tool_result_ids m) then m ∷ ms else rest

unfoldable pub all_result_ids : List InternalMessage → List String
all_result_ids [] = []
all_result_ids (m ∷ ms) = tool_result_ids m ++ all_result_ids ms

-- `{id for id in call_ids if id in available_ids}`, of which only the members are read
unfoldable pub accepted_ids : List String → List String → List String
accepted_ids [] available = []
accepted_ids (i ∷ is) available =
    let rest = accepted_ids is available in if contains i available then i ∷ rest else rest

-- `_keep_tool_call` over the parts; `kept` is `kept_call_ids`.
unfoldable pub keep_calls : List String → List String → List InternalPart → List InternalPart
keep_calls accepted kept [] = []
keep_calls accepted kept (p ∷ ps) =
    let i = p.tool_call_id in
    let others = keep_calls accepted kept ps in
    let later = keep_calls accepted (i ∷ kept) ps in
    if not (is_call p)
    then p ∷ others
    else if not (contains i accepted) || contains i kept
    then others
    else p ∷ later

-- The loop over the parts of a response: what is kept, and how many parts are not.
unfoldable pub keep_results : List String → List String → List InternalPart → List InternalPart
keep_results accepted kept [] = []
keep_results accepted kept (p ∷ ps) =
    let i = p.tool_call_id in
    let others = keep_results accepted kept ps in
    let later = keep_results accepted (i ∷ kept) ps in
    if not (is_result p)
    then p ∷ others
    else if contains i accepted && not (contains i kept)
    then p ∷ later
    else others

-- `kept_result_ids` after the loop
unfoldable pub kept_after : List String → List String → List InternalPart → List String
kept_after accepted kept [] = kept
kept_after accepted kept (p ∷ ps) =
    kept_after accepted
      (if is_result p && contains p.tool_call_id accepted && not (contains p.tool_call_id kept)
        then p.tool_call_id ∷ kept
        else kept)
      ps

-- The loop over the responses: the messages that are kept, and the number of parts removed.
unfoldable pub clean_responses :
    List String → List String → List InternalMessage → List InternalMessage × ℕ
clean_responses accepted kept [] = ([], 0)
clean_responses accepted kept (m ∷ ms) =
    let parts = keep_results accepted kept m.parts in
    let (rest, removed) = clean_responses accepted (kept_after accepted kept m.parts) ms in
    (
      if is_empty parts then rest else record m { parts = parts } ∷ rest,
      (length m.parts - length parts) + removed,
    )

-- The branch of an assistant message with tool calls, with the responses that follow it.
unfoldable pub clean_group : InternalMessage → List InternalMessage → List InternalMessage × ℕ
clean_group m rs =
    let calls = keep_if is_call m.parts in
    let named = drop_unnamed m.parts in
    let named_calls = keep_if is_named calls in
    let accepted = accepted_ids (nonempty_ids named_calls) (all_result_ids rs) in
    let parts = keep_calls accepted [] named in
    let m' : InternalMessage = record m { parts = parts } in
    let (answers, removed) = clean_responses accepted [] rs in
    let count =
      (length calls - length named_calls)
      + (length named_calls - length (keep_if is_call parts))
      + removed in
    if message_has_payload m' then (m' ∷ answers, count) else (answers, suc count)

-- The outer `while`. Each round takes a message at least, so their number is enough fuel.
unfoldable pub clean : ℕ → List InternalMessage → List InternalMessage × ℕ
clean zero ms = (ms, 0)
clean (suc fuel) [] = ([], 0)
clean (suc fuel) (m ∷ ms) =
    let grouped : List InternalMessage × ℕ =
      (let (cleaned, removed) = clean fuel (after_responses ms) in
        let (group, count) = clean_group m (responses ms) in (group ++ cleaned, count + removed)) in
    let stripped : List InternalMessage × ℕ =
      (let (cleaned, removed) = clean fuel ms in
        let parts = keep_if (λ p. not (is_result p)) m.parts in
        (
          if is_empty parts then cleaned else record m { parts = parts } ∷ cleaned,
          (length m.parts - length parts) + removed,
        )) in
    let untouched : List InternalMessage × ℕ =
      (let (cleaned, removed) = clean fuel ms in (m ∷ cleaned, removed)) in
    if is_assistant m.role && any is_call m.parts
    then grouped
    else if is_tool m.role || any is_result m.parts
    then stripped
    else untouched

-- `messages[:] = cleaned` happens only if something was removed.
unfoldable pub sanitize_tool_history : List InternalMessage → List InternalMessage × ℕ
sanitize_tool_history ms =
    let (cleaned, removed) = clean (length ms) ms in
    if removed == 0 then (ms, 0) else (cleaned, removed)
