-- ===== src/Routing/FallbackLaws.antt =====
-- Which fallback policy decides, and what its decision holds.
use llm_aio_gateway.Prelude.{
  ℕ, ◌≤◌, ◌≡◌, refl, ap, ap₂, ◌∙◌, String, Bool, true, false, not, ◌&&◌, Option, none, some, List,
  [], ◌∷◌, ◌++◌, ◌==◌, nat_eq, string_eq, Bool_eq, if◌then◌else◌, is_nonempty, is_empty, arith,
  Bool-cases, Option-cases, inl, inr, All,
}
use llm_aio_gateway.Routing.Rules.{RouteTarget}
use llm_aio_gateway.Routing.Fallback.{
  Policy, FallbackDecision, route_targets, clamp_timeout, is_catch_all, policy_matches,
  decide_fallback, no_policy, first_policy, with_catch_all, by_catch_all, apply_fallback_policy,
}

abbrev pub or_else : Option Policy → Option Policy → Option Policy
or_else none b = b
or_else (some p) b = some p

first_policy-append :
    (t : Policy → Bool) (ps qs : List Policy)
    → first_policy t (ps ++ qs) ≡ or_else (first_policy t ps) (first_policy t qs)
unfolding first_policy
first_policy-append t [] qs = refl
first_policy-append t (p ∷ ps) qs = ground (arith, first_policy-append t ps qs)

first_policy-with_catch_all :
    (t : Policy → Bool) (wanted : Bool) (ps : List Policy)
    → first_policy t (with_catch_all wanted ps)
      ≡ first_policy (λ p. is_catch_all p == wanted && t p) ps
unfolding first_policy
first_policy-with_catch_all t wanted [] = refl
first_policy-with_catch_all t wanted (p ∷ ps) =
    ground (arith, first_policy-with_catch_all t wanted ps)

-- The decision for no policy, and for one.
abbrev pub decided : String → String → String → Option Policy → FallbackDecision
decided provider model trigger none = no_policy provider model trigger
decided provider model trigger (some p) = decide_fallback provider model trigger p

-- In the order in which the policies are stored, the first matching one that is no catch-all
-- decides; the first matching catch-all only where there is none.
pub apply_fallback_policy_order :
    (same : ℕ → ℕ → Bool) (provider model trigger : String) (ps : List Policy)
    → apply_fallback_policy same provider model trigger ps
      ≡ decided provider model trigger (
          or_else
            (first_policy
              (λ p. is_catch_all p == false && policy_matches same provider model trigger p)
              ps)
            (first_policy
              (λ p. is_catch_all p == true && policy_matches same provider model trigger p)
              ps))
unfolding apply_fallback_policy by_catch_all
apply_fallback_policy_order same provider model trigger ps =
    let t = policy_matches same provider model trigger in
    ap (decided provider model trigger) (
      first_policy-append t (with_catch_all false ps) (with_catch_all true ps)
      ∙ ap₂ or_else (first_policy-with_catch_all t false ps)
          (first_policy-with_catch_all t true ps))

clamp_timeout_bounds : (n : ℕ) → (5 ≤ clamp_timeout n) × (clamp_timeout n ≤ 3600)
unfolding clamp_timeout
clamp_timeout_bounds n = omega arith

-- Every target of a chain has a model.
abbrev pub HasModel : RouteTarget → Type 0
HasModel t = is_nonempty t.model ≡ true

route_targets-HasModel : (ts : List RouteTarget) → All HasModel (route_targets ts)
unfolding route_targets
route_targets-HasModel [] = tt
route_targets-HasModel (t ∷ ts) = elim (Bool-cases (is_nonempty t.model)) [
  | inl there ↦ rw there (there, route_targets-HasModel ts)
  | inr missing ↦ rw missing (route_targets-HasModel ts)
]

-- What every decision promises to the caller: a timeout between 5 and 3600 seconds, a chain whose
-- targets have models, and `matched` exactly when the chain is not empty.
pub record IsUsable (d : FallbackDecision) : Type 0 where
  pub at_least : 5 ≤ d.attempt_timeout
  pub at_most : d.attempt_timeout ≤ 3600
  pub chain_models : All HasModel d.chain
  pub matched_chain : d.matched ≡ not (is_empty d.chain)

decide_fallback-IsUsable :
    (provider model trigger : String) (p : Policy)
    → IsUsable (decide_fallback provider model trigger p)
unfolding decide_fallback
decide_fallback-IsUsable provider model trigger p =
    let bounds = clamp_timeout_bounds (if p.attempt_timeout == 0 then 60 else p.attempt_timeout) in
    record {
      at_least = bounds.0;
      at_most = bounds.1;
      chain_models = route_targets-HasModel p.chain;
      matched_chain = refl;
    }

no_policy-IsUsable : (provider model trigger : String) → IsUsable (no_policy provider model trigger)
unfolding no_policy
no_policy-IsUsable provider model trigger = record {
  at_least = omega arith;
  at_most = omega arith;
  chain_models = tt;
  matched_chain = refl;
}

-- Every fallback decision has a timeout between 5 and 3600 seconds and a chain whose targets have
-- models, and is matched exactly when that chain is not empty.
pub apply_fallback_policy-IsUsable :
    (same : ℕ → ℕ → Bool) (provider model trigger : String) (ps : List Policy)
    → IsUsable (apply_fallback_policy same provider model trigger ps)
unfolding apply_fallback_policy
apply_fallback_policy-IsUsable same provider model trigger ps =
    elim (Option-cases
      (first_policy (policy_matches same provider model trigger) (by_catch_all ps))) [
        | inl none_fits ↦
            rw (none_fits, apply_fallback_policy) (no_policy-IsUsable provider model trigger)
        | inr (p, found) ↦
            rw (found, apply_fallback_policy) (decide_fallback-IsUsable provider model trigger p)
      ]
