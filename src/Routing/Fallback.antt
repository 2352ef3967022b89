-- ===== src/Routing/Fallback.antt =====
-- `apply_fallback_policy` of app/core/policy.py, over the policies as the database returns them
-- (`normalize_policy` of app/db/fallback.py), and the clamp of app/db/fallback.py.
use llm_aio_gateway.Prelude.{
  ℕ, min, max, String, Bool, true, false, not, ◌&&◌, ◌||◌, Option, none, some, List, [], ◌∷◌, ◌++◌,
  ◌==◌, nat_eq, string_eq, Bool_eq, if◌then◌else◌, is_nonempty, is_empty, codes, is_space,
}
use llm_aio_gateway.Dict.{Dict, get, get_or}
use llm_aio_gateway.Model.{parse, is_composite, wildcard_match}
use llm_aio_gateway.Routing.Rules.{RouteTarget}

pub record Policy : Type 0 where
  pub id : String
  pub name : String
  pub enabled : Bool
  pub match_provider : String
  pub match_model : String
  pub triggers : Dict String Bool
  -- the entries of the chain, stripped of white space
  pub chain : List RouteTarget
  pub attempt_timeout : ℕ

pub record FallbackDecision : Type 0 where
  pub target : RouteTarget
  pub trigger : String
  pub matched : Bool
  pub policy_id : String
  pub policy_name : String
  pub chain : List RouteTarget
  pub attempt_timeout : ℕ

-- fallback_trigger_enabled
unfoldable pub trigger_enabled : Dict String Bool → String → Bool
unfolding get
trigger_enabled triggers trigger = get_or false (get trigger triggers)

-- `policy.get("match_model", "*") or "*"`
abbrev pub model_pattern : Policy → String
model_pattern p = if is_nonempty p.match_model then p.match_model else "*"

-- _route_targets, from the entries as they are read (a text is a model with no provider, a dict names
-- them by either of two keys, and both are stripped): those without a model are left out.
unfoldable pub route_targets : List RouteTarget → List RouteTarget
route_targets [] = []
route_targets (t ∷ ts) =
    let rest = route_targets ts in if is_nonempty t.model then t ∷ rest else rest

unfoldable pub clamp_timeout : ℕ → ℕ
clamp_timeout n = max 5 (min 3600 n)

-- clamp_attempt_timeout of app/db/fallback.py; `none` is a value that `int` refuses.
unfoldable pub clamp_attempt_timeout : Option ℕ → ℕ → ℕ
clamp_attempt_timeout parsed default = max 5 (min 3600 (get_or default parsed))

skip_space : List ℕ → List ℕ
skip_space [] = []
skip_space (c ∷ cs) = let rest = skip_space cs in if is_space c then rest else c ∷ cs

all_spaces : List ℕ → Bool
all_spaces [] = true
all_spaces (c ∷ cs) = is_space c && all_spaces cs

abbrev star_then_space : List ℕ → Bool
star_then_space [] = false
star_then_space (c ∷ cs) = c == b'*' && all_spaces cs

-- `pattern.strip() == "*"`
unfoldable pub is_catch_all : Policy → Bool
unfolding skip_space all_spaces is_space
is_catch_all p = star_then_space (skip_space (codes (model_pattern p)))

module _ (same : ℕ → ℕ → Bool) where
  unfoldable pub policy_matches : String → String → String → Policy → Bool
  unfolding is_composite trigger_enabled
  policy_matches provider model trigger p =
      if not p.enabled
      then false
      else if is_nonempty p.match_provider && not (p.match_provider == provider)
      then false
      else if not (
          wildcard_match same (model_pattern p) model
          || (is_composite (parse model)
              && wildcard_match same (model_pattern p) (parse model).model_name))
      then false
      else not (is_nonempty trigger && not (trigger_enabled p.triggers trigger))

unfoldable pub decide_fallback : String → String → String → Policy → FallbackDecision
unfolding route_targets clamp_timeout
decide_fallback provider model trigger p =
    let chain = route_targets p.chain in
    record {
      target = record { model = model; provider_id = provider };
      trigger = trigger;
      matched = not (is_empty chain);
      policy_id = p.id;
      policy_name = p.name;
      chain = chain;
      attempt_timeout = clamp_timeout (if p.attempt_timeout == 0 then 60 else p.attempt_timeout);
    }

unfoldable pub no_policy : String → String → String → FallbackDecision
no_policy provider model trigger = record {
  target = record { model = model; provider_id = provider };
  trigger = trigger;
  matched = false;
  policy_id = "";
  policy_name = "";
  chain = [];
  attempt_timeout = 60;
}

-- The loop over the sorted policies.
unfoldable pub first_policy : (Policy → Bool) → List Policy → Option Policy
first_policy test [] = none
first_policy test (p ∷ ps) = let rest = first_policy test ps in if test p then some p else rest

abbrev pub with_catch_all : Bool → List Policy → List Policy
with_catch_all wanted [] = []
with_catch_all wanted (p ∷ ps) =
    let rest = with_catch_all wanted ps in if is_catch_all p == wanted then p ∷ rest else rest

-- `sorted` by the key 1 for a catch-all and 0 for another: a stable sort by a key of two values.
unfoldable pub by_catch_all : List Policy → List Policy
by_catch_all ps = with_catch_all false ps ++ with_catch_all true ps

unfoldable pub apply_fallback_policy :
    (ℕ → ℕ → Bool) → String → String → String → List Policy → FallbackDecision
unfolding policy_matches decide_fallback no_policy first_policy by_catch_all is_catch_all
apply_fallback_policy same provider model trigger policies =
    elim (first_policy (policy_matches same provider model trigger) (by_catch_all policies)) [
      | none ↦ no_policy provider model trigger
      | some p ↦ decide_fallback provider model trigger p
    ]
