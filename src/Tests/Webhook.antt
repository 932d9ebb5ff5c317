-- ===== src/Tests/Webhook.antt =====
-- Admission, on concrete services.
use pd_manager.Common.{arith, ◌≡◌, ◌≢◌, ◌↔◌, inl, inr, none, [], ok, refl, Any, All}
use pd_manager.Api.{PdInferenceServiceSpec, prefill}
use pd_manager.Config.{MergedConfig, resolve}
use pd_manager.Config.Roles.{merged_args}
use pd_manager.Webhook.{
  service, FieldError, validate_create, create_errors, validate_profile_exists,
  validate_volume_mounts, validate_update,
}
use pd_manager.Webhook.Mounts.{UndefinedMount, mount_error, validate_volume_mounts-reports_iff}
use pd_manager.Webhook.Admission.{IsAdmissible, validate_create-eq-none_iff}
use pd_manager.Webhook.Changes.{validate_update-eq-none_iff}
use pd_manager.Pipeline.Replicas.{HasInt32Replicas, IsScheduled, admitted-IsScheduled}
use pd_manager.Pipeline.{IsRunnable, admitted-IsRunnable, admitted_without_args}
use pd_manager.Tests.Translated.{inline_config, inline_group, inline_resolved, inline_built}
use pd_manager.Tests.Samples.{
  parse, no_quote, get_profile, inline_spec, inline_service, profiled_service, profile,
  weights_mount,
}

abbrev no_volumes : PdInferenceServiceSpec
no_volumes = record inline_spec { volumes = [] }

abbrev decode_error : FieldError
decode_error = mount_error no_quote "decode" 0 weights_mount

reported : Any (λ x. x ≡ decode_error) (validate_volume_mounts no_quote no_volumes)
unfolding validate_volume_mounts
reported = inr (inl refl)

validate_volume_mounts-reports_iff_example :
    Any (λ x. x ≡ decode_error) (validate_volume_mounts no_quote no_volumes)
    ↔ UndefinedMount no_quote no_volumes decode_error
validate_volume_mounts-reports_iff_example =
    validate_volume_mounts-reports_iff no_quote no_volumes decode_error

validate_create-eq-none_iff_example :
    (validate_create no_quote get_profile (service profiled_service) ≡ none)
    ↔ IsAdmissible get_profile profiled_service
validate_create-eq-none_iff_example =
    validate_create-eq-none_iff no_quote get_profile profiled_service

validate_update-eq-none_iff_example :
    (validate_update (service inline_service) (service profiled_service) ≡ none) ↔ (
      (inline_spec.model ≡ profiled_service.spec.model)
      × (inline_spec.engine ≡ profiled_service.spec.engine)
      × (inline_spec.engine_profile_ref ≡ profiled_service.spec.engine_profile_ref))
validate_update-eq-none_iff_example = validate_update-eq-none_iff inline_service profiled_service

admitted : validate_create no_quote get_profile (service inline_service) ≡ none
unfolding validate_create create_errors
admitted = refl

admitted-IsRunnable_example : All IsRunnable inline_group.roles
admitted-IsRunnable_example =
    admitted-IsRunnable parse no_quote get_profile inline_service inline_config inline_group
      admitted refl inline_resolved inline_built

pub small : HasInt32Replicas inline_service.spec
small = record {
  router = (omega arith, omega arith);
  prefill = (omega arith, omega arith);
  decode = (omega arith, omega arith);
}

admitted-IsScheduled_example : All IsScheduled inline_group.roles
admitted-IsScheduled_example =
    admitted-IsScheduled parse no_quote get_profile inline_service inline_config inline_group small
      admitted inline_built

profiled-IsAdmissible : IsAdmissible get_profile profiled_service
unfolding validate_create create_errors validate_profile_exists
profiled-IsAdmissible = (validate_create-eq-none_iff no_quote get_profile profiled_service).0 refl

profile_set : profiled_service.spec.engine_profile_ref ≢ ""
profile_set = cc

admitted_without_args_example :
    (validate_create no_quote get_profile (service profiled_service) ≡ none)
    × ((cfg : MergedConfig) × (resolve no_quote get_profile profiled_service ≡ ok cfg)
        × (merged_args cfg prefill ≡ []))
admitted_without_args_example =
    admitted_without_args no_quote get_profile profiled_service profile prefill
      profiled-IsAdmissible profile_set refl refl refl
