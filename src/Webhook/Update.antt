-- ===== src/Webhook/Update.antt =====
-- The validating webhook at update and at deletion: `ValidateUpdate` and `ValidateDelete`.
use Prim.Native.String
use pd_manager.Common.{String, Option, none, some, [], ◌∷◌, ◌++◌, not, ◌==◌}
use pd_manager.Api.{PdInferenceServiceSpec}
use pd_manager.Webhook.Field.{
  forbidden, child, ErrorList, AdmissionError, wrong_type, RuntimeObject, service, foreign,
  to_aggregate,
}
use pd_manager.Webhook.Create.{when}

abbrev pub immutable_field : String → String → String → ErrorList
immutable_field field before after =
    when (not (before == after))
      (forbidden (child "spec" ∷ child field ∷ []) "field is immutable after creation")

unfoldable pub update_errors : PdInferenceServiceSpec → PdInferenceServiceSpec → ErrorList
update_errors before after =
    immutable_field "model" before.model after.model
    ++ (immutable_field "engine" before.engine after.engine
        ++ immutable_field "engineProfileRef" before.engine_profile_ref after.engine_profile_ref)

unfoldable pub validate_update : RuntimeObject → RuntimeObject → Option AdmissionError
validate_update (service before) (service after) =
    to_aggregate (update_errors before.spec after.spec)
validate_update (foreign type_name) new_obj =
    some (wrong_type (String.◌++◌ "expected a PDInferenceService for oldObj but got " type_name))
validate_update (service before) (foreign type_name) =
    some (wrong_type (String.◌++◌ "expected a PDInferenceService for newObj but got " type_name))

-- `ValidateDelete` admits every deletion.
validate_delete : RuntimeObject → Option AdmissionError
validate_delete obj = none
