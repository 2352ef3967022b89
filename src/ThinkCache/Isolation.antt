-- ===== src/ThinkCache/Isolation.antt =====
-- The texts of one caller are not found under the keys of another.
use Prim.Native.Char.{code}
use text.Mathlib.TextLemmas.{nil-append, cons-append}
use Prim.Native.String
use llm_aio_gateway.Prelude.{
  ◌≡◌, ◌≢◌, refl, sym, ap, ◌∙◌, String, Bool, true, false, not, ◌&&◌, some, List, [], ◌∷◌, ◌==◌,
  nat_eq, string_eq, if◌then◌else◌, arith, Bool-cases, inl, inr,
}
use llm_aio_gateway.Dict.{Dict, get, get_or, put, get-put}
use llm_aio_gateway.ThinkCache.Defs.{
  Caches, principal_of, global_reasoning_key, write_tools, nonempty_of, remember_reasoning_content,
}

-- A text without the code point 0.
abbrev pub has_no_zero : String → Bool
has_no_zero String.[] = true
has_no_zero (String.◌∷◌ c s) = not (code c == 0) && has_no_zero s

-- The part before the first code point 0.
abbrev before_zero : String → String
before_zero String.[] = ""
before_zero (String.◌∷◌ c s) =
    let rest = before_zero s in if code c == 0 then "" else String.◌∷◌ c rest

before_zero-append :
    (a b : String) → has_no_zero a ≡ true → before_zero (String.◌++◌ a (String.◌∷◌ "\0" b)) ≡ a
before_zero-append String.[] b h = rw (nil-append) refl
before_zero-append (String.◌∷◌ c s) b h = elim (Bool-cases (code c == 0)) [
  | inl zero_there ↦ absurd (ground (arith, h, zero_there))
  | inr other ↦
      rw (cons-append, other)
        (ap (λ t. String.◌∷◌ c t) (before_zero-append s b (ground (arith, h, other))))
]

key-principal :
    (conv conv' i j : String)
    → has_no_zero (principal_of conv) ≡ true
    → has_no_zero (principal_of conv') ≡ true
    → global_reasoning_key conv i ≡ global_reasoning_key conv' j
    → principal_of conv ≡ principal_of conv'
unfolding global_reasoning_key
key-principal conv conv' i j h g same =
    sym (before_zero-append (principal_of conv) i h)
    ∙ ap before_zero same
    ∙ before_zero-append (principal_of conv') j g

keys_apart :
    (conv conv' i j : String)
    → has_no_zero (principal_of conv) ≡ true
    → has_no_zero (principal_of conv') ≡ true
    → principal_of conv ≢ principal_of conv'
    → (global_reasoning_key conv i == global_reasoning_key conv' j) ≡ false
keys_apart conv conv' i j h g apart =
    elim (Bool-cases (global_reasoning_key conv i == global_reasoning_key conv' j)) [
      | inr other ↦ other
      | inl same ↦
          absurd (apart (key-principal conv conv' i j h g ((string_eq.beq_iff _ _).0 same)))
    ]

write_tools-apart :
    (conv conv' text j : String) (ids : List String) (tool_map globals : Dict String String)
    → has_no_zero (principal_of conv) ≡ true
    → has_no_zero (principal_of conv') ≡ true
    → principal_of conv ≢ principal_of conv'
    → get (global_reasoning_key conv' j) (write_tools conv text ids tool_map globals).1
      ≡ get (global_reasoning_key conv' j) globals
unfolding write_tools
write_tools-apart conv conv' text j [] tool_map globals h g apart = refl
write_tools-apart conv conv' text j (i ∷ ids) tool_map globals h g apart =
    write_tools-apart conv conv' text j ids (put i text tool_map)
      (put (global_reasoning_key conv i) text globals) h g apart
    ∙ get-put (global_reasoning_key conv i) (global_reasoning_key conv' j) text globals
    ∙ ap (λ b. if b then some text else get (global_reasoning_key conv' j) globals)
        (keys_apart conv conv' i j h g apart)

-- What is remembered for a conversation is written under no key of the global cache that belongs to a
-- conversation of another caller, whatever the ids of the tool calls are, if no caller's name has
-- the code point 0: as long as the cache drops nothing for age or size, it holds the same there.
pub remember_reasoning-apart :
    (conv conv' text j : String) (ids : List String) (c : Caches)
    → has_no_zero (principal_of conv) ≡ true
    → has_no_zero (principal_of conv') ≡ true
    → principal_of conv ≢ principal_of conv'
    → get (global_reasoning_key conv' j) (remember_reasoning_content conv text ids c).by_global_key
      ≡ get (global_reasoning_key conv' j) c.by_global_key
unfolding remember_reasoning_content
remember_reasoning-apart conv conv' text j ids c h g apart = ground (
  arith,
  write_tools-apart conv conv' text j (nonempty_of ids) (get_or [] (get conv c.by_tool))
      c.by_global_key h g apart,
)
