-- ===== src/ThinkCache/Defs.antt =====
-- `remember_reasoning_content` and `reasoning_context`. The caches are plain dicts here: what a
-- TTLDict drops for an entry's age or for its own size is modelled in the module Cache, and is left
-- out of these steps.
use Prim.Native.Char.{code}
use Prim.Native.String
use llm_aio_gateway.Prelude.{
  ℕ, zero, suc, ◌-◌, String, not, ◌||◌, Option, List, [], ◌∷◌, ◌==◌, nat_eq, string_eq,
  if◌then◌else◌, is_nonempty, is_empty, length,
}
use llm_aio_gateway.Dict.{Dict, get, put, keys, contains, get_or}
use llm_aio_gateway.Messages.{InternalPart, InternalMessage, is_result_kind}

-- `conv_key.split(":", 1)[0]`
unfoldable pub principal_of : String → String
principal_of String.[] = ""
principal_of (String.◌∷◌ c s) =
    let rest = principal_of s in if code c == b':' then "" else String.◌∷◌ c rest

unfoldable pub global_reasoning_key : String → String → String
unfolding principal_of
global_reasoning_key conv_key tool_call_id =
    String.◌++◌ (principal_of conv_key) (String.◌∷◌ "\0" tool_call_id)

pub record Caches : Type 0 where
  -- reasoning_cache, reasoning_tool_cache and reasoning_tool_global_cache
  pub texts : Dict String String
  pub by_tool : Dict String (Dict String String)
  pub by_global_key : Dict String String

unfoldable pub nonempty_of : List String → List String
nonempty_of [] = []
nonempty_of (i ∷ ids) = let rest = nonempty_of ids in if is_nonempty i then i ∷ rest else rest

-- The loop over the ids: the conversation's map, and the global cache.
unfoldable pub write_tools :
    String
    → String
    → List String
    → Dict String String
    → Dict String String
    → Dict String String × Dict String String
unfolding put global_reasoning_key
write_tools conv_key text [] tool_map globals = (tool_map, globals)
write_tools conv_key text (i ∷ ids) tool_map globals =
    write_tools conv_key text ids (put i text tool_map)
      (put (global_reasoning_key conv_key i) text globals)

-- `while len(tool_map) > 200`: the oldest entries are at the front, and their number is known.
abbrev pub drop_first {ℓ} : {A : Type ℓ} → ℕ → List A → List A
drop_first zero xs = xs
drop_first (suc n) [] = []
drop_first (suc n) (x ∷ xs) = drop_first n xs

unfoldable pub trim_oldest : Dict String String → Dict String String
trim_oldest d = drop_first (length d - 200) d

unfoldable pub remember_reasoning_content : String → String → List String → Caches → Caches
unfolding put get write_tools trim_oldest nonempty_of
remember_reasoning_content conv_key text ids c =
    let named = nonempty_of ids in
    let found = get_or [] (get conv_key c.by_tool) in
    let written = write_tools conv_key text named found c.by_global_key in
    if not (is_nonempty text)
    then c
    else if is_empty named
    then record c { texts = put conv_key text c.texts }
    else record c {
      texts = put conv_key text c.texts;
      by_tool = put conv_key (trim_oldest written.0) c.by_tool;
      by_global_key = written.1;
    }

-- The inner loop of `merge_global_reasoning_context`.
unfoldable pub find_texts :
    String → Dict String String → List InternalPart → Dict String String → Dict String String
unfolding put get keys contains global_reasoning_key
find_texts conv_key globals [] merged = merged
find_texts conv_key globals (p ∷ parts) merged =
    let text = get_or "" (get (global_reasoning_key conv_key p.tool_call_id) globals) in
    let skipped = find_texts conv_key globals parts merged in
    let found = find_texts conv_key globals parts (put p.tool_call_id text merged) in
    if not (is_result_kind p.kind)
      || not (is_nonempty p.tool_call_id)
      || contains p.tool_call_id (keys merged)
    then skipped
    else if is_nonempty text
    then found
    else skipped

find_all :
    String → Dict String String → List InternalMessage → Dict String String → Dict String String
unfolding find_texts
find_all conv_key globals [] merged = merged
find_all conv_key globals (m ∷ ms) merged =
    find_all conv_key globals ms (find_texts conv_key globals m.parts merged)

unfoldable pub merge_global_reasoning_context :
    String → List InternalMessage → Dict String String → Dict String String → Dict String String
unfolding find_all principal_of
merge_global_reasoning_context conv_key messages tool_map globals =
    if not (is_nonempty (principal_of conv_key))
    then tool_map
    else find_all conv_key globals messages tool_map

unfoldable pub reasoning_context :
    String → List InternalMessage → Caches → Option String × Dict String String
unfolding get merge_global_reasoning_context
reasoning_context conv_key messages c = (
  get conv_key c.texts,
  merge_global_reasoning_context conv_key messages (get_or [] (get conv_key c.by_tool))
      c.by_global_key,
)
