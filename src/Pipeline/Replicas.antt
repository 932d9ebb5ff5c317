-- ===== src/Pipeline/Replicas.antt =====
-- The replica counts of the group, from admission to translation.
use pd_manager.Common.{
  ◌≡◌, ℤ, pos, IsInt32, max_int32, ◌≤ℤ◌, inl, inr, String, Option, none, some, All, Result, arith,
}
use pd_manager.Api.{
  NamespacedName, PdEngineProfile, PdInferenceService, PdInferenceServiceSpec, Role, router,
  prefill, decode,
}
use pd_manager.Config.{MergedConfig}
use pd_manager.Webhook.{service, validate_create}
use pd_manager.Webhook.Admission.{IsAdmissible, validate_create-eq-none_iff}
use pd_manager.Workload.{RoleSpec, RoleBasedGroup}
use pd_manager.Translator.{build}
use pd_manager.Translator.Contract.{ReplicasOf}
use pd_manager.Translator.Shape.{build-IsGroupOf}
use pd_manager.Pipeline.{All-roles}

-- The replica counts that a service asks for are `int32`s, as its Go type has them.
pub record HasInt32Replicas (spec : PdInferenceServiceSpec) : Type 0 where
  pub router : IsInt32 spec.router.replicas
  pub prefill : IsInt32 spec.prefill.replicas
  pub decode : IsInt32 spec.decode.replicas

-- The role runs at least one replica, and no more than an `int32` counts.
abbrev pub IsScheduled : {Q : Type 0} → RoleSpec Q → Type 0
IsScheduled role = (n : ℤ) × (role.replicas ≡ some n) × (pos 1 ≤ℤ n) × (n ≤ℤ max_int32)

ReplicasOf-bounds :
    (get : NamespacedName → Result PdEngineProfile) (pdis : PdInferenceService) (r : Role) (n : ℤ)
    → IsAdmissible get pdis
    → HasInt32Replicas pdis.spec
    → ReplicasOf pdis.spec r n
    → (pos 1 ≤ℤ n) × (n ≤ℤ max_int32)
ReplicasOf-bounds get pdis router n admissible small (inl (positive, same)) =
    rw same (positive, small.router.1)
ReplicasOf-bounds get pdis router n admissible small (inr (below, same)) =
    rw same (omega arith, omega arith)
ReplicasOf-bounds get pdis prefill n admissible small same =
    rw same (admissible.prefill_replicas, small.prefill.1)
ReplicasOf-bounds get pdis decode n admissible small same =
    rw same (admissible.decode_replicas, small.decode.1)

-- In the group of a service that `ValidateCreate` admits and whose replica counts are `int32`s,
-- every role runs at least one replica and at most 2^31 - 1.
pub admitted-IsScheduled :
    {Q : Type 0} (parse_quantity : String → Option Q) (quote : String → String)
    (get : NamespacedName → Result PdEngineProfile) (pdis : PdInferenceService) (cfg : MergedConfig)
    (group : RoleBasedGroup Q)
    → HasInt32Replicas pdis.spec
    → validate_create quote get (service pdis) ≡ none
    → build parse_quantity pdis cfg ≡ some group
    → All IsScheduled group.roles
admitted-IsScheduled parse_quantity quote get pdis cfg group small admitted built =
    let admissible = (validate_create-eq-none_iff quote get pdis).0 admitted in
    All-roles IsScheduled (build-IsGroupOf parse_quantity pdis cfg group built) (λ r role h.
      let bounds = ReplicasOf-bounds get pdis r h.count admissible small h.replicas_of in
      (h.count, h.replicas, bounds.0, bounds.1))
