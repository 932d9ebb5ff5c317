-- ===== src/Translator/Shape.antt =====
-- What the translated group holds, role by role.
use mathlib.Core.Path.{subst}
use mathlib.Core.Option.{some-injective}
use pd_manager.Common.{◌≡◌, String, Option, some, List, [], ◌∷◌, map, refl, ap, sym, arith}
use pd_manager.Common.Panics.{>>=-eq-some}
use pd_manager.Api.{
  EngineRuntime, VolumeSpec, PdInferenceService, InferenceRoleSpec, Role, router, prefill, decode,
  role_name, inline_mounts,
}
use pd_manager.Config.{MergedConfig}
use pd_manager.Config.Roles.{merged_image, merged_command, merged_args}
use pd_manager.Workload.{Volume, RoleSpec, RbgEngineRuntime, RoleBasedGroup}
use pd_manager.Translator.Volumes.{
  build_volume, build_volumes, build_volume_mounts, build_volume_mount, volume_source,
}
use pd_manager.Translator.Resources.{build_resources}
use pd_manager.Translator.Build.{
  build_router_role, build_inference_role, build, pod_ip, gpu_selector, router_runtimes,
  prefill_runtimes, decode_runtimes,
}
use pd_manager.Translator.Runtimes.{convert_engine_runtime}
use pd_manager.Translator.Sidecars.{
  RuntimesOf, convert_engine_runtimes-map, resolve_engine_runtimes-Falls,
}
use pd_manager.Translator.Contract.{
  ReplicasOf, env_of, readiness_of, liveness_of, selector_of, IsRoleOf, IsGroupOf,
}
use pd_manager.Translator.Sources.{build_volumes-IsVolumeOf}
use pd_manager.Translator.Health.{build_probe-IsProbeOf}

module _ {Q : Type 0} (parse_quantity : String → Option Q) where
  build_volumes-names :
      (volumes : List VolumeSpec) (built : List (Volume Q))
      → build_volumes parse_quantity volumes ≡ some built
      → map (λ v. v.name) built ≡ map (λ v. v.name) volumes
  unfolding build_volumes build_volume
  build_volumes-names [] built h = cc
  build_volumes-names (v ∷ volumes) built h =
      let (vol, first, h1) = >>=-eq-some (build_volume parse_quantity v) _ h in
      let (rest, later, same) = >>=-eq-some (build_volumes parse_quantity volumes) _ h1 in
      let (source, _, named) =
        >>=-eq-some (volume_source parse_quantity v.host_path v.empty_dir v.pvc) _ first in
      ground (arith, build_volumes-names volumes rest later, same, named)

  build_router_role-IsRoleOf :
      (pdis : PdInferenceService) (cfg : MergedConfig) (role : RoleSpec Q)
      → build_router_role parse_quantity pdis cfg ≡ some role
      → IsRoleOf parse_quantity pdis.spec cfg router role
  unfolding build_router_role build_volume_mounts
  build_router_role-IsRoleOf pdis cfg role h =
      let (volumes, built, h1) = >>=-eq-some (build_volumes parse_quantity pdis.spec.volumes) _ h in
      let (resources, _, same) =
        >>=-eq-some (build_resources parse_quantity pdis.spec.router.resources "") _ h1 in
      let is_role = some-injective _ _ same in
      subst (IsRoleOf parse_quantity pdis.spec cfg router) is_role (record {
        name = refl;
        count = _;
        replicas = refl;
        replicas_of = ground arith;
        container = _;
        only = refl;
        container_name = refl;
        image = refl;
        command = refl;
        args = refl;
        env = refl;
        mounts = refl;
        volumes = build_volumes-names pdis.spec.volumes volumes built;
        sources = build_volumes-IsVolumeOf parse_quantity pdis.spec.volumes volumes built;
        readiness = build_probe-IsProbeOf pdis.spec.router.readiness_probe;
        liveness = build_probe-IsProbeOf pdis.spec.router.liveness_probe;
        selector = refl;
        chosen = router_runtimes cfg.engine_runtimes;
        chosen_of = refl;
        runtimes = convert_engine_runtimes-map Q (router_runtimes cfg.engine_runtimes);
      })

  build_inference_role-IsRoleOf :
      (r : Role) (pdis : PdInferenceService) (cfg : MergedConfig) (inference : InferenceRoleSpec)
      (runtimes : List (RbgEngineRuntime Q)) (role : RoleSpec Q) (chosen : List EngineRuntime)
      → inline_mounts pdis.spec r ≡ inference.volume_mounts
      → ReplicasOf pdis.spec r inference.replicas
      → env_of r ≡ pod_ip ∷ []
      → readiness_of pdis.spec r ≡ inference.readiness_probe
      → liveness_of pdis.spec r ≡ inference.liveness_probe
      → selector_of pdis.spec r ≡ gpu_selector inference.gpu_type
      → RuntimesOf pdis.spec cfg r chosen
      → runtimes ≡ map (convert_engine_runtime Q) chosen
      → build_inference_role parse_quantity
          (role_name r)
          pdis
          inference
          (merged_image cfg r)
          (merged_command cfg r)
          (merged_args cfg r)
          runtimes
        ≡ some role
      → IsRoleOf parse_quantity pdis.spec cfg r role
  unfolding build_inference_role build_volume_mounts
  build_inference_role-IsRoleOf r pdis cfg inference runtimes role chosen mounts replicas env
        readiness liveness selector chosen_of converted h =
      let (volumes, built, h1) = >>=-eq-some (build_volumes parse_quantity pdis.spec.volumes) _ h in
      let (resources, _, same) =
        >>=-eq-some (build_resources parse_quantity inference.resources inference.gpu) _ h1 in
      subst (IsRoleOf parse_quantity pdis.spec cfg r) (some-injective _ _ same) (record {
        name = refl;
        count = _;
        replicas = refl;
        replicas_of = replicas;
        container = _;
        only = refl;
        container_name = refl;
        image = refl;
        command = refl;
        args = refl;
        env = sym env;
        mounts = ap (map build_volume_mount) (sym mounts);
        volumes = build_volumes-names pdis.spec.volumes volumes built;
        sources = build_volumes-IsVolumeOf parse_quantity pdis.spec.volumes volumes built;
        readiness = rw readiness (build_probe-IsProbeOf inference.readiness_probe);
        liveness = rw liveness (build_probe-IsProbeOf inference.liveness_probe);
        selector = sym selector;
        chosen = chosen;
        chosen_of = chosen_of;
        runtimes = converted;
      })

-- A group that `Build` returns is owned by its service, carries its name, and has exactly the roles
-- router, prefill and decode: each with the merged image, command and arguments of that role, its
-- replicas (one router where fewer are asked for), its mounts, its probes and all the volumes of the
-- spec with their sources, POD_IP in the environment and the GPU type in the node selector of
-- prefill and decode, and engine runtimes: those of the profile for the router, and for prefill and
-- decode those set inline or else those of the profile.
pub build-IsGroupOf :
    {Q : Type 0} (parse_quantity : String → Option Q) (pdis : PdInferenceService)
    (cfg : MergedConfig) (group : RoleBasedGroup Q)
    → build parse_quantity pdis cfg ≡ some group
    → IsGroupOf parse_quantity pdis cfg group
unfolding build
build-IsGroupOf {Q} parse_quantity pdis cfg group h =
    let (a, built_router, h1) = >>=-eq-some (build_router_role parse_quantity pdis cfg) _ h in
    let (b, built_prefill, h2) =
      >>=-eq-some (build_inference_role parse_quantity "prefill" pdis pdis.spec.prefill _ _ _ _) _
        h1 in
    let (c, built_decode, same) =
      >>=-eq-some (build_inference_role parse_quantity "decode" pdis pdis.spec.decode _ _ _ _) _
        h2 in
    let (for_prefill, prefill_of, prefill_converted) =
      resolve_engine_runtimes-Falls Q pdis.spec.prefill.engine_runtimes
        (prefill_runtimes cfg.engine_runtimes) in
    let (for_decode, decode_of, decode_converted) =
      resolve_engine_runtimes-Falls Q pdis.spec.decode.engine_runtimes
        (decode_runtimes cfg.engine_runtimes) in
    subst (IsGroupOf parse_quantity pdis cfg) (some-injective _ _ same) (record {
      name = refl;
      namespace = refl;
      owner = refl;
      router_role = a;
      prefill_role = b;
      decode_role = c;
      roles = refl;
      is_router = build_router_role-IsRoleOf parse_quantity pdis cfg a built_router;
      is_prefill =
          build_inference_role-IsRoleOf parse_quantity prefill pdis cfg pdis.spec.prefill _ b
            for_prefill refl refl refl refl refl refl prefill_of prefill_converted built_prefill;
      is_decode =
          build_inference_role-IsRoleOf parse_quantity decode pdis cfg pdis.spec.decode _ c
            for_decode refl refl refl refl refl refl decode_of decode_converted built_decode;
    })
