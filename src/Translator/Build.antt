-- ===== src/Translator/Build.antt =====
-- The roles and the whole RoleBasedGroup.
use pd_manager.Common.{
  pos, ltb_ℤ, String, true, Option, none, some, List, [], ◌∷◌, GoMap, ◌==◌, if◌then◌else◌,
}
use pd_manager.Common.Panics.{◌>>=◌}
use pd_manager.Api.{
  EnvVar, field_ref, EngineRuntime, RoleEngineRuntimes, PdInferenceService, InferenceRoleSpec,
}
use pd_manager.Config.{MergedConfig}
use pd_manager.Workload.{
  Container, RoleSpec, RbgEngineRuntime, RoleBasedGroup, OwnerReference, WorkloadSpec,
}
use pd_manager.Translator.Volumes.{build_volumes, build_volume_mounts}
use pd_manager.Translator.Resources.{build_resources}
use pd_manager.Translator.Probes.{build_probe}
use pd_manager.Translator.Runtimes.{convert_engine_runtimes, resolve_engine_runtimes}

abbrev stateful_set : WorkloadSpec
stateful_set = record { api_version = "apps/v1"; kind = "StatefulSet" }

-- POD_IP by the Downward API.
abbrev pub pod_ip : EnvVar
pod_ip = record { name = "POD_IP"; value = ""; value_from = some (field_ref "status.podIP") }

-- `cfg.EngineRuntimes.Router` and its kin, where the pointer may be nil
abbrev pub router_runtimes : Option RoleEngineRuntimes → List EngineRuntime
router_runtimes none = []
router_runtimes (some r) = r.router

abbrev pub prefill_runtimes : Option RoleEngineRuntimes → List EngineRuntime
prefill_runtimes none = []
prefill_runtimes (some r) = r.prefill

abbrev pub decode_runtimes : Option RoleEngineRuntimes → List EngineRuntime
decode_runtimes none = []
decode_runtimes (some r) = r.decode

-- The node selector by the type of the GPU.
abbrev pub gpu_selector : String → GoMap String
gpu_selector gpu_type = if gpu_type == "" then [] else ("accelerator", gpu_type) ∷ []

abbrev pub owner_reference : PdInferenceService → OwnerReference
owner_reference pdis = record {
  api_version = "pdai.pdai.io/v1alpha1";
  kind = "PDInferenceService";
  name = pdis.metadata.name;
  uid = pdis.metadata.uid;
  controller = some true;
  block_owner_deletion = some true;
}

module _ {Q : Type 0} (parse_quantity : String → Option Q) where
  unfoldable pub build_router_role : PdInferenceService → MergedConfig → Option (RoleSpec Q)
  build_router_role pdis cfg = do
    let role = pdis.spec.router
    let replicas = if ltb_ℤ role.replicas (pos 1) then pos 1 else role.replicas
    volumes ← build_volumes parse_quantity pdis.spec.volumes
    resources ← build_resources parse_quantity role.resources ""
    let container : Container Q = record {
      name = "router";
      image = cfg.images.router;
      command = cfg.router_command;
      args = cfg.router_args;
      env = [];
      resources = resources;
      volume_mounts = build_volume_mounts role.volume_mounts;
      readiness_probe = build_probe role.readiness_probe;
      liveness_probe = build_probe role.liveness_probe;
    }
    some (record {
      name = "router";
      replicas = some replicas;
      workload = stateful_set;
      engine_runtimes = convert_engine_runtimes Q (router_runtimes cfg.engine_runtimes);
      template = record { volumes = volumes; containers = container ∷ []; node_selector = [] };
    })

  unfoldable pub build_inference_role :
      String
      → PdInferenceService
      → InferenceRoleSpec
      → (image : String) (command args : List String) → List (RbgEngineRuntime Q)
      → Option (RoleSpec Q)
  build_inference_role name pdis role image command args runtimes = do
    volumes ← build_volumes parse_quantity pdis.spec.volumes
    resources ← build_resources parse_quantity role.resources role.gpu
    let container : Container Q = record {
      name = name;
      image = image;
      command = command;
      args = args;
      env = pod_ip ∷ [];
      resources = resources;
      volume_mounts = build_volume_mounts role.volume_mounts;
      readiness_probe = build_probe role.readiness_probe;
      liveness_probe = build_probe role.liveness_probe;
    }
    some (record {
      name = name;
      replicas = some role.replicas;
      workload = stateful_set;
      engine_runtimes = runtimes;
      template = record {
        volumes = volumes;
        containers = container ∷ [];
        node_selector = gpu_selector role.gpu_type;
      };
    })

  -- `(b *RBGBuilder) Build`; its error is always nil.
  unfoldable pub build : PdInferenceService → MergedConfig → Option (RoleBasedGroup Q)
  build pdis cfg = do
    let spec = pdis.spec
    router_role ← build_router_role pdis cfg
    prefill_role ←
        build_inference_role "prefill" pdis spec.prefill cfg.images.prefill cfg.prefill_command
          cfg.prefill_args
          (resolve_engine_runtimes Q spec.prefill.engine_runtimes
            (prefill_runtimes cfg.engine_runtimes))
    decode_role ←
        build_inference_role "decode" pdis spec.decode cfg.images.decode cfg.decode_command
          cfg.decode_args
          (resolve_engine_runtimes Q spec.decode.engine_runtimes
            (decode_runtimes cfg.engine_runtimes))
    some (record {
      name = pdis.metadata.name;
      namespace = pdis.metadata.namespace;
      owner_references = owner_reference pdis ∷ [];
      roles = router_role ∷ prefill_role ∷ decode_role ∷ [];
      status = record { conditions = []; role_statuses = [] };
    })
