-- ===== src/Messages.antt =====
-- The internal messages of app/core/types.py, with the fields that the request policy reads, and
-- the tests on them of app/core/policy.py.
use llm_aio_gateway.Prelude.{
  String, Bool, true, false, not, ◌&&◌, ◌||◌, List, [], ◌∷◌, if◌then◌else◌, any, has_content,
  is_nonempty,
}

pub data PartKind : Type 0 where
  text image tool_call tool_result reasoning unknown : PartKind

pub data Role : Type 0 where
  system user assistant tool : Role

pub record InternalPart : Type 0 where
  pub kind : PartKind
  pub text : String
  pub tool_call_id : String
  pub name : String

pub record InternalMessage : Type 0 where
  pub role : Role
  pub parts : List InternalPart

abbrev pub is_assistant : Role → Bool
is_assistant assistant = true
is_assistant _ = false

abbrev pub is_tool : Role → Bool
is_tool tool = true
is_tool _ = false

abbrev pub is_text_kind : PartKind → Bool
is_text_kind text = true
is_text_kind _ = false

abbrev pub is_call_kind : PartKind → Bool
is_call_kind tool_call = true
is_call_kind _ = false

abbrev pub is_result_kind : PartKind → Bool
is_result_kind tool_result = true
is_result_kind _ = false

abbrev pub is_reasoning_kind : PartKind → Bool
is_reasoning_kind reasoning = true
is_reasoning_kind _ = false

abbrev pub is_call : InternalPart → Bool
is_call p = is_call_kind p.kind

abbrev pub is_result : InternalPart → Bool
is_result p = is_result_kind p.kind

-- `[p for p in parts if test(p)]`
unfoldable pub keep_if : (InternalPart → Bool) → List InternalPart → List InternalPart
keep_if test [] = []
keep_if test (p ∷ ps) = let rest = keep_if test ps in if test p then p ∷ rest else rest

unfoldable pub ids_of : List InternalPart → List String
ids_of [] = []
ids_of (p ∷ ps) = p.tool_call_id ∷ ids_of ps

unfoldable pub nonempty_ids : List InternalPart → List String
nonempty_ids [] = []
nonempty_ids (p ∷ ps) =
    let rest = nonempty_ids ps in if is_nonempty p.tool_call_id then p.tool_call_id ∷ rest else rest

-- _ir_message_has_text
unfoldable pub message_has_text : InternalMessage → Bool
message_has_text m = any (λ p. is_text_kind p.kind && has_content p.text) m.parts

-- _ir_message_has_tool_calls
unfoldable pub message_has_tool_calls : InternalMessage → Bool
message_has_tool_calls m = any is_call m.parts

-- _ir_message_has_reasoning
unfoldable pub message_has_reasoning : InternalMessage → Bool
message_has_reasoning m = any (λ p. is_reasoning_kind p.kind) m.parts

-- _ir_tool_call_ids
unfoldable pub tool_call_ids : InternalMessage → List String
unfolding keep_if nonempty_ids
tool_call_ids m = nonempty_ids (keep_if is_call m.parts)

-- _ir_tool_result_ids
unfoldable pub tool_result_ids : InternalMessage → List String
unfolding keep_if nonempty_ids
tool_result_ids m = nonempty_ids (keep_if is_result m.parts)

-- _ir_message_has_payload
unfoldable pub message_has_payload : InternalMessage → Bool
message_has_payload m =
    any (λ p. not (is_reasoning_kind p.kind) && (not (is_text_kind p.kind) || has_content p.text))
      m.parts
