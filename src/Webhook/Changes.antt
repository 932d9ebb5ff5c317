-- ===== src/Webhook/Changes.antt =====
-- What the mutating webhook establishes, and which updates are admitted.
use mathlib.Core.Path.{subst}
use pd_manager.Common.{pos, ◌≤ℤ◌, ◌≡◌, ◌≢◌, ◌↔◌, String, none, [], Result, refl, ap, arith, eq_iff}
use pd_manager.Api.{NamespacedName, PdEngineProfile, PdInferenceService, PdInferenceServiceSpec}
use pd_manager.Webhook.Field.{service}
use pd_manager.Webhook.Defaults.{default_spec, default_service}
use pd_manager.Webhook.Create.{validate_create, create_errors}
use pd_manager.Webhook.Update.{immutable_field, update_errors, validate_update}
use pd_manager.Webhook.Admission.{to_aggregate-eq-none_iff}

-- What the operator may rely on once the mutating webhook has run.
pub record IsDefaulted (spec : PdInferenceServiceSpec) : Type 0 where
  pub engine : spec.engine ≢ ""
  pub replicas : pos 1 ≤ℤ spec.router.replicas

default_spec-IsDefaulted : (spec : PdInferenceServiceSpec) → IsDefaulted (default_spec spec)
unfolding default_spec
default_spec-IsDefaulted spec = record {
  engine = ground (arith, eq_iff spec.engine "", eq_iff "sglang" "");
  replicas = ground arith;
}

default_spec-fixed : (spec : PdInferenceServiceSpec) → IsDefaulted spec → default_spec spec ≡ spec
unfolding default_spec
default_spec-fixed spec h = ground (arith, eq_iff spec.engine "", h.engine, h.replicas)

-- `Default` changes a service exactly when its engine is unset or its router has no replica.
pub default_service-fixed_iff :
    (pdis : PdInferenceService) → (default_service pdis ≡ pdis) ↔ IsDefaulted pdis.spec
unfolding default_service
default_service-fixed_iff pdis = (
  λ fixed. subst IsDefaulted (ap (λ s. s.spec) fixed) (default_spec-IsDefaulted pdis.spec),
  λ h. ground (arith, default_spec-fixed pdis.spec h),
)

-- Defaulting never changes the verdict of `ValidateCreate` nor the errors in it.
validate_create-default_service :
    (quote : String → String) (get : NamespacedName → Result PdEngineProfile)
    (pdis : PdInferenceService)
    → validate_create quote get (service (default_service pdis))
      ≡ validate_create quote get (service pdis)
unfolding validate_create create_errors default_service
validate_create-default_service quote get pdis = refl

immutable_field-eq-nil_iff :
    (field before after : String) → (immutable_field field before after ≡ []) ↔ (before ≡ after)
immutable_field-eq-nil_iff field before after = ground (arith, eq_iff before after)

-- `ValidateUpdate` admits an update exactly when it keeps the model, the engine and the profile
-- reference. Nothing else of the two services is compared.
pub validate_update-eq-none_iff :
    (before after : PdInferenceService)
    → (validate_update (service before) (service after) ≡ none) ↔ (
        (before.spec.model ≡ after.spec.model)
        × (before.spec.engine ≡ after.spec.engine)
        × (before.spec.engine_profile_ref ≡ after.spec.engine_profile_ref))
unfolding validate_update update_errors
validate_update-eq-none_iff before after = ground (
  arith,
  to_aggregate-eq-none_iff (update_errors before.spec after.spec),
  eq_iff before.spec.model after.spec.model,
  eq_iff before.spec.engine after.spec.engine,
  eq_iff before.spec.engine_profile_ref after.spec.engine_profile_ref,
)
