-- ===== src/Translator/Runtimes.antt =====
-- Engine runtimes: the sidecars that are handed on to the RBG.
use pd_manager.Common.{none, List, [], map, is_filled, if◌then◌else◌}
use pd_manager.Api.{EngineRuntime, RuntimeContainer}
use pd_manager.Workload.{RbgEngineRuntime, Container}

module _ (Q : Type 0) where
  abbrev runtime_container : RuntimeContainer → Container Q
  runtime_container c = record {
    name = c.name;
    image = "";
    command = [];
    args = c.args;
    env = c.env;
    resources = record { requests = none; limits = none };
    volume_mounts = [];
    readiness_probe = none;
    liveness_probe = none;
  }

  abbrev pub convert_engine_runtime : EngineRuntime → RbgEngineRuntime Q
  convert_engine_runtime rt = record {
    profile_name = rt.profile_name;
    containers = map runtime_container rt.containers;
  }

  unfoldable pub convert_engine_runtimes : List EngineRuntime → List (RbgEngineRuntime Q)
  convert_engine_runtimes runtimes =
      if is_filled runtimes then map convert_engine_runtime runtimes else []

  unfoldable pub resolve_engine_runtimes :
      List EngineRuntime → List EngineRuntime → List (RbgEngineRuntime Q)
  resolve_engine_runtimes inline profile_runtimes =
      if is_filled inline
      then convert_engine_runtimes inline
      else if is_filled profile_runtimes
      then convert_engine_runtimes profile_runtimes
      else []
