-- ===== src/Routing/Rules.antt =====
-- `apply_routing_rules` of app/core/policy.py, over the rules as the database returns them
-- (`normalize_rule` of app/db/routing.py). The decision's `reason` is a text for the log.
use llm_aio_gateway.Prelude.{
  ℕ, String, Bool, true, false, not, ◌&&◌, ◌||◌, Option, none, some, List, [], ◌∷◌, ◌==◌, nat_eq,
  string_eq, if◌then◌else◌, is_nonempty, codes,
}
use llm_aio_gateway.Model.{parse, is_composite, wildcard_match}

pub record RouteTarget : Type 0 where
  pub model : String
  pub provider_id : String

-- `match_scope` after `normalize_rule`
pub data Scope : Type 0 where
  any_scope unqualified qualified : Scope

-- `normalize_rule`, of a scope already in lower case
unfoldable pub scope_of : String → Scope
scope_of s =
    if s == "unqualified" then unqualified else if s == "qualified" then qualified else any_scope

pub record Rule : Type 0 where
  pub id : String
  pub name : String
  pub enabled : Bool
  pub username : String
  pub api_key_pattern : String
  pub match_model : String
  pub match_scope : Scope
  pub target_model : String
  pub target_provider : String

pub record RoutingDecision : Type 0 where
  pub requested_model : String
  pub resolved_model : String
  pub target : RouteTarget
  pub matched : Bool
  pub rule_id : Option String
  pub rule_name : String
  pub source : String

abbrev pub starts : List ℕ → List ℕ → Bool
starts [] cs = true
starts (p ∷ ps) [] = false
starts (p ∷ ps) (c ∷ cs) = p == c && starts ps cs

-- `needle in hay`
unfoldable pub occurs_in : List ℕ → List ℕ → Bool
occurs_in needle [] = starts needle []
occurs_in needle (c ∷ cs) = starts needle (c ∷ cs) || occurs_in needle cs

unfoldable pub decide : String → String → Rule → RoutingDecision
decide requested resolved rule = record {
  requested_model = requested;
  resolved_model = resolved;
  target = record {
    model = if is_nonempty rule.target_model then rule.target_model else resolved;
    provider_id = rule.target_provider;
  };
  matched = true;
  rule_id = some rule.id;
  rule_name = rule.name;
  source = "routing_rule";
}

unfoldable pub no_rule : String → String → RoutingDecision
no_rule requested resolved = record {
  requested_model = requested;
  resolved_model = resolved;
  target = record { model = resolved; provider_id = "" };
  matched = false;
  rule_id = none;
  rule_name = "";
  source = "default";
}

module _ (same : ℕ → ℕ → Bool) where
  unfoldable pub scope_matches : Scope → String → String → Bool
  unfolding is_composite
  scope_matches unqualified pattern requested =
      not (is_composite (parse requested)) && wildcard_match same pattern requested
  scope_matches qualified pattern requested =
      is_composite (parse requested) && wildcard_match same pattern requested
  scope_matches any_scope pattern requested =
      wildcard_match same pattern requested
      || (is_composite (parse requested)
          && wildcard_match same pattern (parse requested).model_name)

  -- The tests of the loop's body, each of which goes on to the next rule.
  unfoldable pub rule_matches : String → String → String → Rule → Bool
  unfolding scope_matches occurs_in
  rule_matches username api_key requested rule =
      if not rule.enabled
      then false
      else if is_nonempty rule.username && not (rule.username == username)
      then false
      else if is_nonempty rule.api_key_pattern
          && not (occurs_in (codes rule.api_key_pattern) (codes api_key))
      then false
      else if not (is_nonempty rule.match_model)
      then false
      else scope_matches rule.match_scope rule.match_model requested

  unfoldable pub apply_routing_rules :
      String → String → String → String → List Rule → RoutingDecision
  unfolding rule_matches decide no_rule
  apply_routing_rules username api_key requested resolved [] = no_rule requested resolved
  apply_routing_rules username api_key requested resolved (rule ∷ rules) =
      let rest = apply_routing_rules username api_key requested resolved rules in
      if rule_matches username api_key requested rule then decide requested resolved rule else rest
