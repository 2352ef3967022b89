-- ===== src/ThinkCache/Tests.antt =====
-- Runs of the reasoning caches.
use llm_aio_gateway.Prelude.{◌≡◌, ◌≢◌, refl, ap, some, [], ◌∷◌, ◌==◌, string_eq}
use llm_aio_gateway.Dict.{get, put}
use llm_aio_gateway.ThinkCache.Defs.{
  Caches, principal_of, global_reasoning_key, write_tools, nonempty_of, trim_oldest,
  remember_reasoning_content,
}
use llm_aio_gateway.ThinkCache.Isolation.{remember_reasoning-apart}
use mathlib.Core.Bool.{false≢true}

machine : Unit {0}
unfolding get put principal_of global_reasoning_key write_tools nonempty_of trim_oldest
    remember_reasoning_content
machine = tt

abbrev empty : Caches
empty = record { texts = []; by_tool = []; by_global_key = [] }

abbrev first : Caches
first = remember_reasoning_content "alice:1" "thought" ("call" ∷ "" ∷ []) empty

kept : get (global_reasoning_key "alice:2" "call") first.by_global_key ≡ some "thought"
unfolding machine
kept = refl

callers_differ : principal_of "bob:1" ≢ principal_of "alice:1"
unfolding machine
callers_differ h = false≢true (ap (λ s. s == "alice") h)

remember_reasoning-apart_example :
    get
      (global_reasoning_key "alice:1" "call")
      (remember_reasoning_content "bob:1" "other" ("call" ∷ []) first).by_global_key
    ≡ get (global_reasoning_key "alice:1" "call") first.by_global_key
unfolding machine
remember_reasoning-apart_example =
    remember_reasoning-apart "bob:1" "alice:1" "other" "call" ("call" ∷ []) first refl refl
      callers_differ
