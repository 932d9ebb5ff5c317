-- ===== src/Tests/Translated.antt =====
-- The configuration and the group that the sample services are translated into.
use pd_manager.Common.{◌≡◌, pos, String, true, none, some, [], ◌∷◌, refl, ok}
use pd_manager.Api.{field_ref}
use pd_manager.Config.{MergedConfig, resolve, load_profile, override_inline}
use pd_manager.Workload.{
  RoleBasedGroup, RoleSpec, Container, Volume, ResourceRequirements, WorkloadSpec,
}
use pd_manager.Translator.{
  build, build_router_role, build_inference_role, build_volumes, build_volume, build_volume_mounts,
  build_resources, parse_into, build_probe, convert_engine_runtimes, resolve_engine_runtimes,
}
use pd_manager.Tests.Samples.{parse, no_quote, get_profile, inline_service}

-- The inline service, merged.
abbrev pub inline_config : MergedConfig
inline_config = record {
  images = record { router = "router:v1"; prefill = "sglang:v1"; decode = "sglang:v1" };
  router_command = [];
  prefill_command = [];
  decode_command = [];
  router_args = "--pd" ∷ [];
  prefill_args = "--tp" ∷ "8" ∷ [];
  decode_args = "--tp" ∷ "8" ∷ [];
  engine_runtimes = none;
}

pub inline_resolved : resolve no_quote get_profile inline_service ≡ ok inline_config
unfolding resolve load_profile override_inline
inline_resolved = refl

abbrev weights_volume : Volume String
weights_volume = record {
  name = "weights";
  source = record {
    host_path = none;
    empty_dir = some (record { medium = "Memory"; size_limit = some "16Gi" });
    persistent_volume_claim = none;
  };
}

abbrev pub worker_resources : ResourceRequirements String
worker_resources = record {
  requests = some (("cpu", "4") ∷ ("nvidia.com/gpu", "8") ∷ []);
  limits = some (("cpu", "8") ∷ ("nvidia.com/gpu", "8") ∷ []);
}

abbrev stateful : WorkloadSpec
stateful = record { api_version = "apps/v1"; kind = "StatefulSet" }

abbrev router_role : RoleSpec String
router_role =
    let container : Container String = record {
      name = "router";
      image = "router:v1";
      command = [];
      args = "--pd" ∷ [];
      env = [];
      resources = record { requests = none; limits = none };
      volume_mounts = [];
      readiness_probe = none;
      liveness_probe = none;
    } in
    record {
      name = "router";
      replicas = some (pos 1);
      workload = stateful;
      engine_runtimes = [];
      template = record {
        volumes = weights_volume ∷ [];
        containers = container ∷ [];
        node_selector = [];
      };
    }

abbrev worker_role : String → RoleSpec String
worker_role name =
    let container : Container String = record {
      name = name;
      image = "sglang:v1";
      command = [];
      args = "--tp" ∷ "8" ∷ [];
      env =
          record { name = "POD_IP"; value = ""; value_from = some (field_ref "status.podIP") } ∷ [];
      resources = worker_resources;
      volume_mounts = record { name = "weights"; mount_path = "/models"; read_only = true } ∷ [];
      readiness_probe = none;
      liveness_probe = none;
    } in
    record {
      name = name;
      replicas = some (pos 2);
      workload = stateful;
      engine_runtimes = [];
      template = record {
        volumes = weights_volume ∷ [];
        containers = container ∷ [];
        node_selector = ("accelerator", "H100") ∷ [];
      };
    }

abbrev pub inline_group : RoleBasedGroup String
inline_group = record {
  name = "chat";
  namespace = "ml";
  owner_references =
      record {
        api_version = "pdai.pdai.io/v1alpha1";
        kind = "PDInferenceService";
        name = "chat";
        uid = "u-1";
        controller = some true;
        block_owner_deletion = some true;
      }
      ∷ [];
  roles = router_role ∷ worker_role "prefill" ∷ worker_role "decode" ∷ [];
  status = record { conditions = []; role_statuses = [] };
}

pub inline_built : build parse inline_service inline_config ≡ some inline_group
unfolding build build_router_role build_inference_role build_volumes build_volume
    build_volume_mounts build_resources parse_into build_probe convert_engine_runtimes
    resolve_engine_runtimes
inline_built = refl
