-- ===== src/Routing.antt =====
-- The routing rules and the fallback policies of app/core/policy.py.
mod Rules
mod Fallback
pub mod RuleLaws
pub mod FallbackLaws
mod Tests
pub use Rules.{RouteTarget, Rule, RoutingDecision}
pub use Fallback.{Policy, FallbackDecision}
unfoldable pub use Rules.{
  occurs_in, scope_of, scope_matches, rule_matches, decide, no_rule, apply_routing_rules,
}
unfoldable pub use Fallback.{
  trigger_enabled, policy_matches, route_targets, clamp_timeout, decide_fallback, first_policy,
  by_catch_all, apply_fallback_policy,
}
