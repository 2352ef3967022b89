-- ===== src/Targets/Defs.antt =====
-- The candidate targets of a request: the primary one, then the chain, each upstream once.
use llm_aio_gateway.Prelude.{
  String, Bool, not, ◌&&◌, Option, none, some, List, [], ◌∷◌, ◌==◌, string_eq, if◌then◌else◌,
  is_nonempty, any,
}
use llm_aio_gateway.Model.{parse}
use llm_aio_gateway.Routing.{RouteTarget}

-- A model name without its provider, and a provider.
abbrev pub Identity : Type 0
Identity = String × String

abbrev pub same_identity : Identity → Identity → Bool
same_identity (m, p) (n, q) = m == n && p == q

module _ (provider_of_model : String → Option String) where
  -- target_identity; `provider_of_model` looks a model's provider up in the database.
  unfoldable pub target_identity : RouteTarget → Identity
  unfolding parse
  target_identity target =
      let ref = parse target.model in
      let given = if is_nonempty target.provider_id then target.provider_id else ref.provider_id in
      (
        ref.model_name,
        if is_nonempty given
            then given
            else elim (provider_of_model ref.model_name) [ none ↦ "" | some id ↦ id ],
      )

  -- The loop, over the keys that were seen.
  unfoldable pub unseen_targets : List Identity → List RouteTarget → List RouteTarget
  unfolding target_identity
  unseen_targets seen [] = []
  unseen_targets seen (t ∷ ts) =
      let key = target_identity t in
      let skipped = unseen_targets seen ts in
      let taken = unseen_targets (key ∷ seen) ts in
      if not (is_nonempty t.model)
      then skipped
      else if any (same_identity key) seen
      then skipped
      else t ∷ taken

  unfoldable pub candidate_targets : RouteTarget → List RouteTarget → List RouteTarget
  unfolding unseen_targets
  candidate_targets primary chain = unseen_targets [] (primary ∷ chain)
