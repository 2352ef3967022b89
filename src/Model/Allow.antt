-- ===== src/Model/Allow.antt =====
-- The allow lists of an API key: `allowed_models_for`, `_model_allowed_by_list`,
-- `ensure_model_allowed` and `ensure_routed_model_allowed` of app/router/proxy.py.
use Prim.Native.String
use llm_aio_gateway.Prelude.{
  String, Bool, true, false, not, ◌&&◌, Option, none, some, List, [], ◌∷◌, ◌==◌, string_eq,
  if◌then◌else◌, is_nonempty, any,
}
use llm_aio_gateway.Dict.{contains}
use llm_aio_gateway.Model.Id.{cut_slash, parse, composite, is_composite}

-- A 403, with the advice to use a qualified name or without.
pub data Verdict : Type 0 where
  allowed : Verdict
  denied : (advise_qualified : Bool) → Verdict

unfoldable pub allowed_models_for : Option (List String) → List String
unfolding contains
allowed_models_for none = "*" ∷ []
allowed_models_for (some key_models) = if contains "*" key_models then "*" ∷ [] else key_models

unfoldable pub entry_allows : String → String → Bool
unfolding parse is_composite
entry_allows model entry =
    let requested = parse model in
    let allowed_mid = parse entry in
    if is_composite allowed_mid
    then is_composite requested
      && requested.provider_id == allowed_mid.provider_id
      && requested.model_name == allowed_mid.model_name
    else requested.model_name == allowed_mid.model_name

unfoldable pub model_allowed_by_list : List String → String → Bool
unfolding entry_allows
model_allowed_by_list entries model = any (entry_allows model) entries

abbrev has_slash : String → Bool
has_slash s = elim (cut_slash s) [ none ↦ false | some _ ↦ true ]

unfoldable pub deny : List String → String → Verdict
unfolding cut_slash parse is_composite
deny entries model = denied (any has_slash entries && not (is_composite (parse model)))

unfoldable pub ensure_model_allowed : Option (List String) → String → Verdict
unfolding allowed_models_for model_allowed_by_list deny contains
ensure_model_allowed key_models model =
    let entries = allowed_models_for key_models in
    if contains "*" entries
    then allowed
    else if model_allowed_by_list entries model
    then allowed
    else deny entries model

unfoldable pub effective_target : String → String → String
unfolding parse is_composite composite
effective_target target_model target_provider =
    let target = parse target_model in
    if is_nonempty target_provider && not (is_composite target)
    then String.◌++◌ target_provider (String.◌∷◌ "/" target.model_name)
    else composite target

unfoldable pub ensure_routed_model_allowed :
    Option (List String) → String → String → String → Verdict
unfolding allowed_models_for model_allowed_by_list deny contains effective_target
    ensure_model_allowed
ensure_routed_model_allowed key_models requested_model target_model target_provider =
    if requested_model == target_model && not (is_nonempty target_provider)
    then ensure_model_allowed key_models requested_model
    else let entries = allowed_models_for key_models in
      if contains "*" entries
      then allowed
      else if model_allowed_by_list entries (effective_target target_model target_provider)
      then allowed
      else if model_allowed_by_list entries requested_model
      then allowed
      else deny entries requested_model
