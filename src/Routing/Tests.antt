-- ===== src/Routing/Tests.antt =====
-- Runs, and the theorems at concrete rules and policies.
use llm_aio_gateway.Prelude.{
  ℕ, ◌≡◌, refl, String, Bool, true, false, List, [], ◌∷◌, ◌==◌, nat_eq, ◌↔◌, ◌⊎◌, All, ◌&&◌,
  Bool_eq, is_space,
}
use llm_aio_gateway.Dict.{get}
use llm_aio_gateway.Model.{cut_slash, parse, is_composite, star, full_match, wildcard_match}
use llm_aio_gateway.Routing.Rules.{
  Rule, Scope, any_scope, unqualified, occurs_in, scope_matches, rule_matches, decide, no_rule,
  apply_routing_rules,
}
use llm_aio_gateway.Routing.RuleLaws.{
  Applies, Skipped, IsFirst, rule_matches_iff, apply_routing_rules-IsFirst,
}
use llm_aio_gateway.Routing.Fallback.{
  Policy, trigger_enabled, route_targets, clamp_timeout, is_catch_all, policy_matches,
  decide_fallback, no_policy, first_policy, by_catch_all, apply_fallback_policy,
}
use llm_aio_gateway.Routing.FallbackLaws.{
  IsUsable, decided, or_else, apply_fallback_policy_order, apply_fallback_policy-IsUsable,
}

machine : Unit {0}
unfolding cut_slash parse is_composite star full_match wildcard_match occurs_in scope_matches
    rule_matches decide no_rule apply_routing_rules trigger_enabled route_targets clamp_timeout
    is_catch_all policy_matches decide_fallback no_policy first_policy by_catch_all
    apply_fallback_policy get is_space
machine = tt

abbrev exact : ℕ → ℕ → Bool
exact a b = a == b

abbrev rule : Scope → String → String → Rule
rule scope pattern target = record {
  id = "1";
  name = "r";
  enabled = true;
  username = "";
  api_key_pattern = "abc";
  match_model = pattern;
  match_scope = scope;
  target_model = target;
  target_provider = "";
}

abbrev rules : List Rule
rules = rule unqualified "gpt*" "small" ∷ rule any_scope "gpt*" "big" ∷ []

routed :
    ((apply_routing_rules exact "u" "sk-abc-1" "p/gpt-4" "p/gpt-4" rules).target.model ≡ "big")
    × ((apply_routing_rules exact "u" "sk-abc-1" "gpt-4" "gpt-4" rules).target.model ≡ "small")
    × ((apply_routing_rules exact "u" "sk-xyz" "gpt-4" "gpt-4" rules).matched ≡ false)
unfolding machine
routed = (refl, refl, refl)

rule_matches_iff_example :
    (rule_matches exact "u" "sk-abc-1" "gpt-4" (rule any_scope "gpt*" "big") ≡ true)
    ↔ Applies exact "u" "sk-abc-1" "gpt-4" (rule any_scope "gpt*" "big")
rule_matches_iff_example =
    rule_matches_iff exact "u" "sk-abc-1" "gpt-4" (rule any_scope "gpt*" "big")

apply_routing_rules-IsFirst_example :
    (All (Skipped exact "u" "sk-abc-1" "gpt-4" "gpt-4") rules
      × (apply_routing_rules exact "u" "sk-abc-1" "gpt-4" "gpt-4" rules ≡ no_rule "gpt-4" "gpt-4"))
    ⊎ ((first : Rule) × IsFirst exact "u" "sk-abc-1" "gpt-4" "gpt-4" rules first
        × (apply_routing_rules exact "u" "sk-abc-1" "gpt-4" "gpt-4" rules
            ≡ decide "gpt-4" "gpt-4" first))
apply_routing_rules-IsFirst_example =
    apply_routing_rules-IsFirst exact "u" "sk-abc-1" "gpt-4" "gpt-4" rules

abbrev policy : String → String → ℕ → Policy
policy id pattern timeout = record {
  id = id;
  name = id;
  enabled = true;
  match_provider = "";
  match_model = pattern;
  triggers = ("timeout", true) ∷ ("http_4xx", false) ∷ [];
  chain =
      record { model = "spare"; provider_id = "" } ∷ record { model = ""; provider_id = "x" } ∷ [];
  attempt_timeout = timeout;
}

abbrev policies : List Policy
policies = policy "all" " * " 0 ∷ policy "gpt" "gpt*" 2 ∷ []

fallbacks :
    ((apply_fallback_policy exact "p" "gpt-4" "timeout" policies).policy_id ≡ "gpt")
    × ((apply_fallback_policy exact "p" "gpt-4" "timeout" policies).attempt_timeout ≡ 5)
    × ((apply_fallback_policy exact "p" "gpt-4" "http_4xx" policies).matched ≡ false)
unfolding machine
fallbacks = (refl, refl, refl)

apply_fallback_policy_order_example :
    apply_fallback_policy exact "p" "gpt-4" "timeout" policies
    ≡ decided "p" "gpt-4" "timeout" (
        or_else
          (first_policy
            (λ p. is_catch_all p == false && policy_matches exact "p" "gpt-4" "timeout" p)
            policies)
          (first_policy
            (λ p. is_catch_all p == true && policy_matches exact "p" "gpt-4" "timeout" p)
            policies))
apply_fallback_policy_order_example =
    apply_fallback_policy_order exact "p" "gpt-4" "timeout" policies

apply_fallback_policy-IsUsable_example :
    IsUsable (apply_fallback_policy exact "p" "gpt-4" "timeout" policies)
apply_fallback_policy-IsUsable_example =
    apply_fallback_policy-IsUsable exact "p" "gpt-4" "timeout" policies
