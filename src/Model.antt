-- ===== src/Model.antt =====
-- Model names: `ModelId` of app/database.py, `wildcard_match` of app/core/policy.py, and the allow
-- lists of app/router/proxy.py.
mod Id
mod Wildcard
pub mod IdLaws
pub mod WildcardLaws
mod Allow
pub mod AllowLaws
mod Tests
pub use Id.{ModelId}
pub use Allow.{Verdict}
unfoldable pub use Id.{cut_slash, after_last_slash, parse, composite, is_composite, equals_text}
unfoldable pub use Wildcard.{star, full_match, wildcard_match}
unfoldable pub use Allow.{
  allowed_models_for, entry_allows, model_allowed_by_list, deny, ensure_model_allowed,
  effective_target, ensure_routed_model_allowed,
}
