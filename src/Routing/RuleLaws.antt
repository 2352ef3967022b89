-- ===== src/Routing/RuleLaws.antt =====
-- Which rule decides a request.
use llm_aio_gateway.Prelude.{
  ℕ, ◌≡◌, refl, sym, ap, subst, ◌∙◌, String, Bool, true, false, List, [], ◌∷◌, ◌++◌, ◌==◌, nat_eq,
  string_eq, ◌↔◌, ◌⊎◌, is_nonempty, codes, arith, Bool-cases, inl, inr, All, beq_self,
}
use mathlib.Core.Bool.{false≢true}
use llm_aio_gateway.Model.{parse, is_composite, wildcard_match}
use llm_aio_gateway.Model.WildcardLaws.{Matches, wildcard_match_iff}
use llm_aio_gateway.Routing.Rules.{
  Rule, Scope, any_scope, unqualified, qualified, starts, occurs_in, scope_matches, rule_matches,
  decide, no_rule, apply_routing_rules,
}

-- The needle stands somewhere in the hay.
abbrev pub IsPart : List ℕ → List ℕ → Type 0
IsPart needle hay = (before : List ℕ) × (after : List ℕ) × (before ++ (needle ++ after) ≡ hay)

starts_sound :
    (needle hay : List ℕ) → starts needle hay ≡ true → (after : List ℕ) × (needle ++ after ≡ hay)
starts_sound [] hay h = (hay, refl)
starts_sound (n ∷ ns) [] h = cc
starts_sound (n ∷ ns) (c ∷ cs) h =
    let (after, split) = starts_sound ns cs (ground arith) in
    let same : n ≡ c = ground arith in (after, cc)

starts-append : (needle after : List ℕ) → starts needle (needle ++ after) ≡ true
starts-append [] after = refl
starts-append (n ∷ ns) after = rw (beq_self n) (starts-append ns after)

occurs_in_sound : (needle hay : List ℕ) → occurs_in needle hay ≡ true → IsPart needle hay
unfolding occurs_in
occurs_in_sound needle [] h = let (after, split) = starts_sound needle [] h in ([], after, split)
occurs_in_sound needle (c ∷ cs) h = elim (Bool-cases (starts needle (c ∷ cs))) [
  | inl here ↦ let (after, split) = starts_sound needle (c ∷ cs) here in ([], after, split)
  | inr later ↦
      let (before, after, split) = occurs_in_sound needle cs (ground arith) in
      (c ∷ before, after, ap (λ l. c ∷ l) split)
]

occurs_in-append :
    (before needle after : List ℕ) → occurs_in needle (before ++ (needle ++ after)) ≡ true
unfolding occurs_in
occurs_in-append [] [] [] = refl
occurs_in-append [] [] (c ∷ cs) = refl
occurs_in-append [] (n ∷ ns) after = rw (starts-append (n ∷ ns) after)
occurs_in-append (b ∷ before) needle after = ground (arith, occurs_in-append before needle after)

occurs_in_iff : (needle hay : List ℕ) → (occurs_in needle hay ≡ true) ↔ IsPart needle hay
occurs_in_iff needle hay = (
  occurs_in_sound needle hay,
  λ p. subst (λ l. occurs_in needle l ≡ true) p.2 (occurs_in-append p.0 needle p.1),
)

module _ (same : ℕ → ℕ → Bool) where
  abbrev Fits : String → String → Type 0
  Fits pattern value = Matches same (codes pattern) (codes value)

  -- The scope of a rule, in words of the name's parts.
  abbrev pub ScopeHolds : Scope → String → String → Type 0
  ScopeHolds unqualified pattern requested =
      (is_composite (parse requested) ≡ false) × Fits pattern requested
  ScopeHolds qualified pattern requested =
      (is_composite (parse requested) ≡ true) × Fits pattern requested
  ScopeHolds any_scope pattern requested =
      Fits pattern requested
      ⊎ ((is_composite (parse requested) ≡ true) × Fits pattern (parse requested).model_name)

  -- When a rule applies to a request.
  pub record Applies (username api_key requested : String) (rule : Rule) : Type 0 where
    pub enabled : rule.enabled ≡ true
    pub user : is_nonempty rule.username ≡ true → rule.username ≡ username
    pub key :
        is_nonempty rule.api_key_pattern ≡ true
        → IsPart (codes rule.api_key_pattern) (codes api_key)
    pub has_pattern : is_nonempty rule.match_model ≡ true
    pub in_scope : ScopeHolds rule.match_scope rule.match_model requested

  scope_to :
      (s : Scope) (pattern requested : String)
      → scope_matches same s pattern requested ≡ true
      → ScopeHolds s pattern requested
  unfolding scope_matches
  scope_to unqualified pattern requested h =
      (ground arith, (wildcard_match_iff same pattern requested).0 (ground arith))
  scope_to qualified pattern requested h =
      (ground arith, (wildcard_match_iff same pattern requested).0 (ground arith))
  scope_to any_scope pattern requested h =
      elim (Bool-cases (wildcard_match same pattern requested)) [
        | inl whole ↦ inl ((wildcard_match_iff same pattern requested).0 whole)
        | inr other ↦ inr (
          ground arith,
          (wildcard_match_iff same pattern (parse requested).model_name).0 (ground arith),
        )
      ]

  scope_from :
      (s : Scope) (pattern requested : String)
      → ScopeHolds s pattern requested
      → scope_matches same s pattern requested ≡ true
  unfolding scope_matches
  scope_from unqualified pattern requested (simple, fits) =
      ground (arith, simple, (wildcard_match_iff same pattern requested).1 fits)
  scope_from qualified pattern requested (composite, fits) =
      ground (arith, composite, (wildcard_match_iff same pattern requested).1 fits)
  scope_from any_scope pattern requested (inl fits) =
      ground (arith, (wildcard_match_iff same pattern requested).1 fits)
  scope_from any_scope pattern requested (inr (composite, fits)) =
      ground
        (arith, composite, (wildcard_match_iff same pattern (parse requested).model_name).1 fits)

  rule_matches_to :
      (username api_key requested : String) (rule : Rule)
      → rule_matches same username api_key requested rule ≡ true
      → Applies username api_key requested rule
  unfolding rule_matches
  rule_matches_to username api_key requested rule h = record {
    enabled = ground (arith, h);
    user = λ given. (string_eq.beq_iff rule.username username).0 (ground (arith, h));
    key = λ given. occurs_in_sound (codes rule.api_key_pattern) (codes api_key) (ground (arith, h));
    has_pattern = ground (arith, h);
    in_scope = scope_to rule.match_scope rule.match_model requested (ground (arith, h));
  }

  rule_matches_from :
      (username api_key requested : String) (rule : Rule)
      → Applies username api_key requested rule
      → rule_matches same username api_key requested rule ≡ true
  unfolding rule_matches
  rule_matches_from username api_key requested rule a =
      let user_fits : is_nonempty rule.username ≡ true → (rule.username == username) ≡ true =
        λ given. (string_eq.beq_iff rule.username username).1 (a.user given) in
      let key_fits : is_nonempty rule.api_key_pattern ≡ true
          → occurs_in (codes rule.api_key_pattern) (codes api_key) ≡ true =
        λ given. (occurs_in_iff (codes rule.api_key_pattern) (codes api_key)).1 (a.key given) in
      ground (
        arith,
        user_fits,
        key_fits,
        a.enabled,
        a.has_pattern,
        scope_from rule.match_scope rule.match_model requested a.in_scope,
      )

  -- A rule passes the loop's tests exactly when it applies: it is enabled, its user and key
  -- pattern, where given, fit, it has a model pattern, and that fits the name in the rule's scope.
  pub rule_matches_iff :
      (username api_key requested : String) (rule : Rule)
      → (rule_matches same username api_key requested rule ≡ true)
        ↔ Applies username api_key requested rule
  rule_matches_iff username api_key requested rule = (
    rule_matches_to username api_key requested rule,
    rule_matches_from username api_key requested rule,
  )

  module _ (username api_key requested resolved : String) where
    abbrev pub Skipped : Rule → Type 0
    Skipped rule = ¬ Applies username api_key requested rule

    -- The first rule that applies, with those before it; none, if none applies.
    pub record IsFirst (rules : List Rule) (rule : Rule) : Type 0 where
      pub before : List Rule
      pub after : List Rule
      pub split : before ++ rule ∷ after ≡ rules
      pub skipped : All Skipped before
      pub applies : Applies username api_key requested rule

    -- The decision is that of the first rule that applies; where no rule applies, the request
    -- goes to the resolved model with no provider, unmatched.
    pub apply_routing_rules-IsFirst :
        (rules : List Rule)
        → (All Skipped rules
            × (apply_routing_rules same username api_key requested resolved rules
                ≡ no_rule requested resolved))
          ⊎ ((rule : Rule) × IsFirst rules rule
              × (apply_routing_rules same username api_key requested resolved rules
                  ≡ decide requested resolved rule))
    unfolding apply_routing_rules
    apply_routing_rules-IsFirst [] = inl (tt, refl)
    apply_routing_rules-IsFirst (rule ∷ rules) =
        elim (Bool-cases (rule_matches same username api_key requested rule)) [
          | inl here ↦ inr (
            rule,
            record {
              before = [];
              after = rules;
              split = refl;
              skipped = tt;
              applies = rule_matches_to username api_key requested rule here;
            },
            rw here,
          )
          | inr skip ↦
              let skipped : Skipped rule =
                λ a. false≢true (sym skip ∙ rule_matches_from username api_key requested rule a) in
              elim (apply_routing_rules-IsFirst rules) [
                | inl (all, same_result) ↦ inl ((skipped, all), rw skip same_result)
                | inr (later, first, same_result) ↦ inr (
                  later,
                  record {
                    before = rule ∷ first.before;
                    after = first.after;
                    split = ap (λ l. rule ∷ l) first.split;
                    skipped = (skipped, first.skipped);
                    applies = first.applies;
                  },
                  rw skip same_result,
                )
              ]
        ]
