-- ===== src/Targets/CandidateLaws.antt =====
-- The candidates are the distinct upstreams of the primary target and the chain.
use llm_aio_gateway.Prelude.{
  String, ◌≡◌, subst, sym, inl, inr, Bool, true, false, not, ◌&&◌, ◌||◌, Option, List, [], ◌∷◌,
  string_eq, is_nonempty, any, All, All-weaken, arith, Bool-cases, beq_self,
}
use llm_aio_gateway.Routing.{RouteTarget}
use llm_aio_gateway.Targets.Defs.{
  Identity, same_identity, target_identity, unseen_targets, candidate_targets,
}

same_identity_self : (i : Identity) → same_identity i i ≡ true
same_identity_self (m, p) = ground (arith, beq_self m, beq_self p)

module _ (provider_of_model : String → Option String) where
  -- `t` is one of the keys, or a target of that key is on the list.
  abbrev pub has_key : RouteTarget → List RouteTarget → Bool
  has_key t ts =
      any
        (λ (u : RouteTarget).
          same_identity (target_identity provider_of_model t) (target_identity provider_of_model u))
        ts

  -- No key is twice on the list, or on it and among the keys that were seen.
  abbrev pub IsFresh : List Identity → List RouteTarget → Type 0
  IsFresh seen [] = Unit
  IsFresh seen (t ∷ ts) =
      (any (same_identity (target_identity provider_of_model t)) seen ≡ false)
      × (is_nonempty t.model ≡ true)
      × IsFresh (target_identity provider_of_model t ∷ seen) ts

  unseen_targets-IsFresh :
      (ts : List RouteTarget) (seen : List Identity)
      → IsFresh seen (unseen_targets provider_of_model seen ts)
  unfolding unseen_targets
  unseen_targets-IsFresh [] seen = tt
  unseen_targets-IsFresh (t ∷ ts) seen = elim (Bool-cases (is_nonempty t.model)) [
    | inr unnamed ↦ rw unnamed (unseen_targets-IsFresh ts seen)
    | inl named ↦
        elim (Bool-cases (any (same_identity (target_identity provider_of_model t)) seen)) [
          | inl old ↦ rw named (rw old (unseen_targets-IsFresh ts seen))
          | inr fresh ↦ rw named (rw fresh (fresh, named, unseen_targets-IsFresh ts _))
        ]
  ]

  -- `t` names no model, its key was seen, or a target of its key is on the list.
  abbrev pub IsCovered : List Identity → List RouteTarget → RouteTarget → Type 0
  IsCovered seen us t =
      (not (is_nonempty t.model)
        || any (same_identity (target_identity provider_of_model t)) seen
        || has_key t us)
      ≡ true

  unseen_skip :
      (seen : List Identity) (t : RouteTarget) (ts : List RouteTarget)
      → (is_nonempty t.model
          && not (any (same_identity (target_identity provider_of_model t)) seen))
        ≡ false
      → unseen_targets provider_of_model seen (t ∷ ts) ≡ unseen_targets provider_of_model seen ts
  unfolding unseen_targets
  unseen_skip seen t ts h = ground (arith, h)

  unseen_take :
      (seen : List Identity) (t : RouteTarget) (ts : List RouteTarget)
      → (is_nonempty t.model
          && not (any (same_identity (target_identity provider_of_model t)) seen))
        ≡ true
      → unseen_targets provider_of_model seen (t ∷ ts)
        ≡ t ∷ unseen_targets provider_of_model (target_identity provider_of_model t ∷ seen) ts
  unfolding unseen_targets
  unseen_take seen t ts h = ground (arith, h)

  unseen_targets-IsCovered :
      (ts : List RouteTarget) (seen : List Identity)
      → All (IsCovered seen (unseen_targets provider_of_model seen ts)) ts
  unseen_targets-IsCovered [] seen = tt
  unseen_targets-IsCovered (t ∷ ts) seen =
      let key = target_identity provider_of_model t in
      elim (Bool-cases (is_nonempty t.model && not (any (same_identity key) seen))) [
        | inr skipped ↦
            subst (λ us. All (IsCovered seen us) (t ∷ ts)) (sym (unseen_skip seen t ts skipped))
              (ground (arith, skipped), unseen_targets-IsCovered ts seen)
        | inl taken ↦
            subst (λ us. All (IsCovered seen us) (t ∷ ts)) (sym (unseen_take seen t ts taken))
              (
                ground (arith, same_identity_self key),
                All-weaken _ _ ts (λ u h. ground (arith, h))
                    (unseen_targets-IsCovered ts (key ∷ seen)),
              )
      ]

  -- No two candidates are the same upstream, all of them name a model, and each target of the request
  -- that names a model, the primary one and the chain's, is the same upstream as some candidate.
  pub candidate_targets_lem :
      (primary : RouteTarget) (chain : List RouteTarget)
      → let candidates = candidate_targets provider_of_model primary chain in
        IsFresh [] candidates × All (IsCovered [] candidates) (primary ∷ chain)
  unfolding candidate_targets
  candidate_targets_lem primary chain =
      (unseen_targets-IsFresh (primary ∷ chain) [], unseen_targets-IsCovered (primary ∷ chain) [])
