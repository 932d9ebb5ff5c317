-- ===== src/Webhook/Defaults.antt =====
-- The mutating webhook, `Default`.
use pd_manager.Common.{ℤ, pos, ltb_ℤ, String, Result, ok, err, failure, ◌==◌, if◌then◌else◌}
use Prim.Native.String
use pd_manager.Api.{PdInferenceService, PdInferenceServiceSpec, RouterRoleSpec, engine_type_sglang}
use pd_manager.Webhook.Field.{RuntimeObject, service, foreign}

abbrev default_engine : String → String
default_engine engine = if engine == "" then engine_type_sglang else engine

abbrev default_router_replicas : ℤ → ℤ
default_router_replicas replicas = if ltb_ℤ replicas (pos 1) then pos 1 else replicas

-- The mutation of the spec by `Default`.
unfoldable pub default_spec : PdInferenceServiceSpec → PdInferenceServiceSpec
default_spec spec =
    let router : RouterRoleSpec = record (spec.router) {
      replicas = default_router_replicas spec.router.replicas;
    } in
    record spec { engine = default_engine spec.engine; router = router }

unfoldable pub default_service : PdInferenceService → PdInferenceService
unfolding default_spec
default_service pdis = record pdis { spec = default_spec pdis.spec }

-- `Default`: the object as it is left, or the error of the type assertion.
unfoldable pub default : RuntimeObject → Result RuntimeObject
default (service pdis) = ok (service (default_service pdis))
default (foreign type_name) =
    err (failure (String.◌++◌ "expected a PDInferenceService but got " type_name))
