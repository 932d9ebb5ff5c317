-- ===== src/Translator/Contract.antt =====
-- What `Build` promises of the group, role by role.
use pd_manager.Common.{
  All2, ◌≡◌, ◌⊎◌, ℤ, pos, ◌≤ℤ◌, ◌<ℤ◌, String, Option, some, List, [], ◌∷◌, map, GoMap,
}
use pd_manager.Api.{
  EngineRuntime, EnvVar, ProbeSpec, PdInferenceService, PdInferenceServiceSpec, Role, router,
  prefill, decode, role_name, inline_mounts,
}
use pd_manager.Config.{MergedConfig}
use pd_manager.Config.Roles.{merged_image, merged_command, merged_args}
use pd_manager.Workload.{Container, RoleSpec, RoleBasedGroup}
use pd_manager.Translator.Volumes.{build_volume_mount}
use pd_manager.Translator.Sources.{IsVolumeOf}
use pd_manager.Translator.Health.{IsProbeOf}
use pd_manager.Translator.Build.{pod_ip, gpu_selector, owner_reference}
use pd_manager.Translator.Runtimes.{convert_engine_runtime}
use pd_manager.Translator.Sidecars.{RuntimesOf}

-- The number of replicas that a role is given: that of the spec, but one router where the spec asks
-- for fewer.
abbrev pub ReplicasOf : PdInferenceServiceSpec → Role → ℤ → Type 0
ReplicasOf spec router n =
    ((pos 1 ≤ℤ spec.router.replicas) × (n ≡ spec.router.replicas))
    ⊎ ((spec.router.replicas <ℤ pos 1) × (n ≡ pos 1))
ReplicasOf spec prefill n = n ≡ spec.prefill.replicas
ReplicasOf spec decode n = n ≡ spec.decode.replicas

abbrev pub env_of : Role → List EnvVar
env_of router = []
env_of prefill = pod_ip ∷ []
env_of decode = pod_ip ∷ []

-- The probes of each role, and the GPU type that its nodes have to have.
abbrev pub readiness_of : PdInferenceServiceSpec → Role → Option ProbeSpec
readiness_of spec router = spec.router.readiness_probe
readiness_of spec prefill = spec.prefill.readiness_probe
readiness_of spec decode = spec.decode.readiness_probe

abbrev pub liveness_of : PdInferenceServiceSpec → Role → Option ProbeSpec
liveness_of spec router = spec.router.liveness_probe
liveness_of spec prefill = spec.prefill.liveness_probe
liveness_of spec decode = spec.decode.liveness_probe

abbrev pub selector_of : PdInferenceServiceSpec → Role → GoMap String
selector_of spec router = []
selector_of spec prefill = gpu_selector spec.prefill.gpu_type
selector_of spec decode = gpu_selector spec.decode.gpu_type

-- A role of the group runs one container, with the merged configuration of that role, over all the
-- volumes of the spec and the mounts of the role, with its probes, on nodes with its GPUs.
pub record IsRoleOf {Q : Type 0} (parse_quantity : String → Option Q)
    (spec : PdInferenceServiceSpec) (cfg : MergedConfig) (r : Role) (role : RoleSpec Q)
    : Type 0 where
  pub name : role.name ≡ role_name r
  pub count : ℤ
  pub replicas : role.replicas ≡ some count
  pub replicas_of : ReplicasOf spec r count
  pub container : Container Q
  pub only : role.template.containers ≡ container ∷ []
  pub container_name : container.name ≡ role_name r
  pub image : container.image ≡ merged_image cfg r
  pub command : container.command ≡ merged_command cfg r
  pub args : container.args ≡ merged_args cfg r
  pub env : container.env ≡ env_of r
  pub mounts : container.volume_mounts ≡ map build_volume_mount (inline_mounts spec r)
  pub volumes : map (λ v. v.name) role.template.volumes ≡ map (λ v. v.name) spec.volumes
  pub sources : All2 (IsVolumeOf parse_quantity) spec.volumes role.template.volumes
  pub readiness : IsProbeOf (readiness_of spec r) container.readiness_probe
  pub liveness : IsProbeOf (liveness_of spec r) container.liveness_probe
  pub selector : role.template.node_selector ≡ selector_of spec r
  pub chosen : List EngineRuntime
  pub chosen_of : RuntimesOf spec cfg r chosen
  pub runtimes : role.engine_runtimes ≡ map (convert_engine_runtime Q) chosen

-- The group has the name and the namespace of the service, the service alone as its owner, and the
-- three roles in their order.
pub record IsGroupOf {Q : Type 0} (parse_quantity : String → Option Q) (pdis : PdInferenceService)
    (cfg : MergedConfig) (group : RoleBasedGroup Q) : Type 0 where
  pub name : group.name ≡ pdis.metadata.name
  pub namespace : group.namespace ≡ pdis.metadata.namespace
  pub owner : group.owner_references ≡ owner_reference pdis ∷ []
  pub router_role : RoleSpec Q
  pub prefill_role : RoleSpec Q
  pub decode_role : RoleSpec Q
  pub roles : group.roles ≡ router_role ∷ prefill_role ∷ decode_role ∷ []
  pub is_router : IsRoleOf parse_quantity pdis.spec cfg router router_role
  pub is_prefill : IsRoleOf parse_quantity pdis.spec cfg prefill prefill_role
  pub is_decode : IsRoleOf parse_quantity pdis.spec cfg decode decode_role
