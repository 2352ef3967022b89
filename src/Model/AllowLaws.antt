-- ===== src/Model/AllowLaws.antt =====
-- What the allow list of a key admits.
use llm_aio_gateway.Prelude.{
  ◌≡◌, refl, String, true, false, Option, none, some, List, [], ◌∷◌, string_eq, ◌↔◌, ◌⊎◌,
  is_nonempty, arith, Bool-cases, inl, inr, beq_self,
}
use llm_aio_gateway.Dict.{contains}
use llm_aio_gateway.Model.Id.{ModelId, parse, is_composite}
use llm_aio_gateway.Model.Allow.{
  allowed, allowed_models_for, entry_allows, model_allowed_by_list, deny, ensure_model_allowed,
  effective_target, ensure_routed_model_allowed,
}

-- An entry with a provider grants that model of that provider; one without grants the model's
-- name at every provider.
abbrev pub Grants : String → String → Type 0
Grants entry model =
    ((is_composite (parse entry) ≡ true) × (parse model ≡ parse entry))
    ⊎ ((is_composite (parse entry) ≡ false) × ((parse model).model_name ≡ (parse entry).model_name))

abbrev pub GrantedBy : List String → String → Type 0
GrantedBy entries model = (entry : String) × (contains entry entries ≡ true) × Grants entry model

ModelId-eq : (a b : ModelId) → a.provider_id ≡ b.provider_id → a.model_name ≡ b.model_name → a ≡ b
ModelId-eq a b p q = λ i. record { provider_id = p i; model_name = q i }

entry_allows_to : (model entry : String) → entry_allows model entry ≡ true → Grants entry model
unfolding entry_allows is_composite
entry_allows_to model entry h = elim (Bool-cases (is_nonempty (parse entry).provider_id)) [
  | inl qualified ↦ inl (
    qualified,
    ModelId-eq (parse model) (parse entry) ((string_eq.beq_iff _ _).0 (ground (arith, h)))
        ((string_eq.beq_iff _ _).0 (ground (arith, h))),
  )
  | inr simple ↦ inr (simple, (string_eq.beq_iff _ _).0 (ground (arith, h)))
]

entry_allows_from : (model entry : String) → Grants entry model → entry_allows model entry ≡ true
unfolding entry_allows is_composite
entry_allows_from model entry (inl (qualified, same)) =
    rw (qualified, same)
      (rw qualified
        (ground (arith, beq_self (parse entry).provider_id, beq_self (parse entry).model_name)))
entry_allows_from model entry (inr (simple, same)) =
    rw (simple, same) (beq_self (parse entry).model_name)

list_to :
    (entries : List String) (model : String)
    → model_allowed_by_list entries model ≡ true
    → GrantedBy entries model
unfolding model_allowed_by_list contains
list_to [] model h = cc
list_to (entry ∷ entries) model h = elim (Bool-cases (entry_allows model entry)) [
  | inl here ↦ (entry, rw (beq_self entry) refl, entry_allows_to model entry here)
  | inr later ↦
      let (found, listed, grants) = list_to entries model (ground (arith, h, later)) in
      (found, ground (arith, listed), grants)
]

list_from :
    (entries : List String) (model entry : String)
    → contains entry entries ≡ true
    → Grants entry model
    → model_allowed_by_list entries model ≡ true
unfolding model_allowed_by_list contains
list_from [] model entry listed g = cc
list_from (first ∷ entries) model entry listed g = ground (
  arith,
  list_from entries model entry,
  entry_allows_from model entry g,
  string_eq.beq_iff first entry,
)

-- A key without a list, or with "*" in it, is not restricted.
abbrev pub IsUnrestricted : Option (List String) → Type 0
IsUnrestricted none = Unit
IsUnrestricted (some key_models) = contains "*" key_models ≡ true

abbrev pub listed : Option (List String) → List String
listed none = []
listed (some key_models) = key_models

-- A request for a model passes exactly when its key is not restricted or an entry of the key's
-- list grants it; an entry with a provider grants no request without that provider.
pub ensure_model_allowed_iff :
    (key_models : Option (List String)) (model : String)
    → (ensure_model_allowed key_models model ≡ allowed)
      ↔ (IsUnrestricted key_models ⊎ GrantedBy (listed key_models) model)
unfolding ensure_model_allowed allowed_models_for deny
ensure_model_allowed_iff none model = (λ h. inl tt, λ h. unfold contains in refl)
ensure_model_allowed_iff (some ks) model = elim (Bool-cases (contains "*" ks)) [
  | inl star ↦ (λ h. inl star, λ h. rw star (unfold contains in refl))
  | inr no_star ↦ rw no_star (
      rw no_star (elim (Bool-cases (model_allowed_by_list ks model)) [
        | inl granted ↦ rw granted (λ h. inr (list_to ks model granted), λ h. refl)
        | inr refused ↦
            rw refused
              (λ h. cc, λ h. elim h [ inl star ↦ cc | inr g ↦ cc (list_from ks model g.0 g.1 g.2) ])
      ]))
]

-- A routed request passes only if its key is not restricted, or the list grants the name that was
-- asked for or the name that it is routed to, with the rule's provider if that name has none.
pub ensure_routed_model_allowed_sound :
    (key_models : Option (List String)) (requested target provider : String)
    → ensure_routed_model_allowed key_models requested target provider ≡ allowed
    → IsUnrestricted key_models
      ⊎ GrantedBy (listed key_models) requested
      ⊎ GrantedBy (listed key_models) (effective_target target provider)
unfolding ensure_routed_model_allowed allowed_models_for deny ensure_model_allowed contains
ensure_routed_model_allowed_sound none requested target provider h = inl tt
ensure_routed_model_allowed_sound (some ks) requested target provider h =
    elim (Bool-cases (contains "*" ks)) [
      | inl star ↦ inl star
      | inr no_star ↦ elim (Bool-cases (model_allowed_by_list ks requested)) [
        | inl asked ↦ inr (inl (list_to ks requested asked))
        | inr not_asked ↦ inr (
            inr (
              list_to ks (effective_target target provider)
                (ground (arith, h, no_star, not_asked))))
      ]
    ]
