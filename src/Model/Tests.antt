-- ===== src/Model/Tests.antt =====
-- Runs, and the theorems at concrete names.
use llm_aio_gateway.Prelude.{
  ℕ, ◌≡◌, refl, Bool, true, false, some, [], ◌∷◌, ◌==◌, nat_eq, ◌↔◌, ◌⊎◌, codes,
}
use llm_aio_gateway.Dict.{contains}
use llm_aio_gateway.Model.Id.{
  cut_slash, after_last_slash, parse, composite, is_composite, equals_text,
}
use llm_aio_gateway.Model.IdLaws.{parse-composite, composite-parse}
use llm_aio_gateway.Model.Wildcard.{star, full_match, wildcard_match}
use llm_aio_gateway.Model.WildcardLaws.{Matches, wildcard_match_iff}
use llm_aio_gateway.Model.Allow.{
  allowed, denied, allowed_models_for, entry_allows, model_allowed_by_list, deny,
  ensure_model_allowed, effective_target, ensure_routed_model_allowed,
}
use llm_aio_gateway.Model.AllowLaws.{
  IsUnrestricted, GrantedBy, ensure_model_allowed_iff, ensure_routed_model_allowed_sound,
}

machine : Unit {0}
unfolding cut_slash after_last_slash parse composite is_composite equals_text star full_match
    wildcard_match allowed_models_for entry_allows model_allowed_by_list deny ensure_model_allowed
    effective_target ensure_routed_model_allowed contains
machine = tt

abbrev exact : ℕ → ℕ → Bool
exact a b = a == b

names :
    (parse "openai/gpt/4" ≡ record { provider_id = "openai"; model_name = "gpt/4" })
    × (parse "/x" ≡ record { provider_id = ""; model_name = "x" })
    × (equals_text (parse "gpt") "a/b/gpt" ≡ true)
unfolding machine
names = (refl, refl, refl)

patterns :
    (wildcard_match exact "gpt-*-mini" "gpt-4-o-mini" ≡ true)
    × (wildcard_match exact "gpt-*" "gpt" ≡ false)
    × (wildcard_match exact "*" "a\nb" ≡ false)
unfolding machine
patterns = (refl, refl, refl)

verdicts :
    (ensure_model_allowed (some ("p/m" ∷ [])) "m" ≡ denied true)
    × (ensure_model_allowed (some ("m" ∷ [])) "q/m" ≡ allowed)
    × (ensure_model_allowed (some []) "m" ≡ denied false)
    × (ensure_routed_model_allowed (some ("p/m" ∷ [])) "alias" "m" "p" ≡ allowed)
unfolding machine
verdicts = (refl, refl, refl, refl)

wildcard_match_iff_example :
    (wildcard_match exact "gpt-*" "gpt-4" ≡ true) ↔ Matches exact (codes "gpt-*") (codes "gpt-4")
wildcard_match_iff_example = wildcard_match_iff exact "gpt-*" "gpt-4"

ensure_model_allowed_iff_example :
    (ensure_model_allowed (some ("p/m" ∷ [])) "p/m" ≡ allowed)
    ↔ (IsUnrestricted (some ("p/m" ∷ [])) ⊎ GrantedBy ("p/m" ∷ []) "p/m")
ensure_model_allowed_iff_example = ensure_model_allowed_iff (some ("p/m" ∷ [])) "p/m"

ensure_routed_model_allowed_sound_example :
    IsUnrestricted (some ("p/m" ∷ []))
    ⊎ GrantedBy ("p/m" ∷ []) "alias"
    ⊎ GrantedBy ("p/m" ∷ []) (effective_target "m" "p")
ensure_routed_model_allowed_sound_example =
    ensure_routed_model_allowed_sound (some ("p/m" ∷ [])) "alias" "m" "p" (verdicts.3)

parse-composite_example :
    parse (composite (record { provider_id = "p"; model_name = "a/b" }))
    ≡ record { provider_id = "p"; model_name = "a/b" }
unfolding machine
parse-composite_example = parse-composite "p" "a/b" refl refl

printed_again : composite (parse "p/a/b") ≡ "p/a/b"
unfolding machine
printed_again = composite-parse "p/a/b" refl
