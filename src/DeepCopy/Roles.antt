-- ===== src/DeepCopy/Roles.antt =====
-- The deep copies of the specs of the roles.
use pd_manager.Common.{ℤ, String, ◌++◌, refl}
use pd_manager.Api.{InferenceRoleSpec, ProbeSpec, RouterRoleSpec, VolumeMountSpec}
use pd_manager.DeepCopy.Alloc.{
  Slice, Ptr, Alloc, pure, ◌>>=◌, copy_ptr, copy_slice, copy_flat_ptr, copy_flat_slice,
}
use pd_manager.DeepCopy.Views.{
  View, IsDeep, flat, ptr, slice, flat_slice, Fills-append, flat-IsDeep, ptr-IsDeep, slice-IsDeep,
  flat_slice-IsDeep,
}
use pd_manager.DeepCopy.Library.{Library, LibraryLaws}
use pd_manager.DeepCopy.Parts.{
  GoRoleResources, role_resources_deep_copy_into, role_resources_deep_copy_into-IsDeep,
  role_resources_view,
}
use pd_manager.DeepCopy.Runtimes.{
  GoEngineRuntime, engine_runtime_deep_copy_into, engine_runtime_deep_copy_into-IsDeep,
  engine_runtime_view,
}

pub record GoRouterRoleSpec : Type 0 where
  pub image : String
  pub replicas : ℤ
  pub resources : Ptr GoRoleResources
  pub volume_mounts : Slice VolumeMountSpec
  pub command : Slice String
  pub args : Slice String
  pub readiness_probe : Ptr ProbeSpec
  pub liveness_probe : Ptr ProbeSpec

pub record GoInferenceRoleSpec (l : Library) : Type 0 where
  pub image : String
  pub replicas : ℤ
  pub gpu : String
  pub gpu_type : String
  pub resources : Ptr GoRoleResources
  pub volume_mounts : Slice VolumeMountSpec
  pub command : Slice String
  pub args : Slice String
  pub readiness_probe : Ptr ProbeSpec
  pub liveness_probe : Ptr ProbeSpec
  pub engine_runtimes : Slice (GoEngineRuntime l)

abbrev pub router_role_spec_view : View GoRouterRoleSpec RouterRoleSpec
router_role_spec_view = record {
  value = λ x. record {
    image = x.image;
    replicas = x.replicas;
    resources = (ptr role_resources_view).value x.resources;
    volume_mounts = flat_slice.value x.volume_mounts;
    command = flat_slice.value x.command;
    args = flat_slice.value x.args;
    readiness_probe = (ptr flat).value x.readiness_probe;
    liveness_probe = (ptr flat).value x.liveness_probe;
  };
  refs = λ x.
      (ptr role_resources_view).refs x.resources
      ++ (flat_slice.refs x.volume_mounts
          ++ (flat_slice.refs x.command
              ++ (flat_slice.refs x.args
                  ++ ((ptr flat).refs x.readiness_probe ++ ((ptr flat).refs x.liveness_probe)))));
}

unfoldable pub router_role_spec_deep_copy_into : GoRouterRoleSpec → Alloc GoRouterRoleSpec
router_role_spec_deep_copy_into x = do
  resources ← copy_ptr role_resources_deep_copy_into x.resources
  volume_mounts ← copy_flat_slice x.volume_mounts
  command ← copy_flat_slice x.command
  args ← copy_flat_slice x.args
  readiness_probe ← copy_flat_ptr x.readiness_probe
  liveness_probe ← copy_flat_ptr x.liveness_probe
  pure (record x {
    resources = resources;
    volume_mounts = volume_mounts;
    command = command;
    args = args;
    readiness_probe = readiness_probe;
    liveness_probe = liveness_probe;
  })

abbrev router_role_spec_deep_copy : Ptr GoRouterRoleSpec → Alloc (Ptr GoRouterRoleSpec)
router_role_spec_deep_copy = copy_ptr router_role_spec_deep_copy_into

pub router_role_spec_deep_copy_into-IsDeep :
    IsDeep router_role_spec_view router_role_spec_deep_copy_into
unfolding router_role_spec_deep_copy_into
router_role_spec_deep_copy_into-IsDeep =
    let resources = ptr-IsDeep role_resources_deep_copy_into-IsDeep in
    let volume_mounts = flat_slice-IsDeep {A = VolumeMountSpec} in
    let command = flat_slice-IsDeep {A = String} in
    let readiness_probe = ptr-IsDeep (flat-IsDeep {A = ProbeSpec}) in
    record {
      same = λ x _.
          rw
            (
              resources.same x.resources _,
              volume_mounts.same x.volume_mounts _,
              command.same x.command _,
              command.same x.args _,
              readiness_probe.same x.readiness_probe _,
              readiness_probe.same x.liveness_probe _,
            )
            refl;
      fills = λ x _. Fills-append _ _ _ _ _ (resources.fills x.resources _) (
          Fills-append _ _ _ _ _ (volume_mounts.fills x.volume_mounts _) (
            Fills-append _ _ _ _ _ (command.fills x.command _) (
              Fills-append _ _ _ _ _ (command.fills x.args _) (
                Fills-append _ _ _ _ _ (readiness_probe.fills x.readiness_probe _)
                  (readiness_probe.fills x.liveness_probe _)))));
    }

module _ (l : Library) where
  abbrev pub inference_role_spec_view : View (GoInferenceRoleSpec l) InferenceRoleSpec
  inference_role_spec_view = record {
    value = λ x. record {
      image = x.image;
      replicas = x.replicas;
      gpu = x.gpu;
      gpu_type = x.gpu_type;
      resources = (ptr role_resources_view).value x.resources;
      volume_mounts = flat_slice.value x.volume_mounts;
      command = flat_slice.value x.command;
      args = flat_slice.value x.args;
      readiness_probe = (ptr flat).value x.readiness_probe;
      liveness_probe = (ptr flat).value x.liveness_probe;
      engine_runtimes = (slice (engine_runtime_view l)).value x.engine_runtimes;
    };
    refs = λ x.
        (ptr role_resources_view).refs x.resources
        ++ (flat_slice.refs x.volume_mounts
            ++ (flat_slice.refs x.command
                ++ (flat_slice.refs x.args
                    ++ ((ptr flat).refs x.readiness_probe
                        ++ ((ptr flat).refs x.liveness_probe
                            ++ ((slice (engine_runtime_view l)).refs x.engine_runtimes))))));
  }

  unfoldable pub inference_role_spec_deep_copy_into :
      GoInferenceRoleSpec l → Alloc (GoInferenceRoleSpec l)
  inference_role_spec_deep_copy_into x = do
    resources ← copy_ptr role_resources_deep_copy_into x.resources
    volume_mounts ← copy_flat_slice x.volume_mounts
    command ← copy_flat_slice x.command
    args ← copy_flat_slice x.args
    readiness_probe ← copy_flat_ptr x.readiness_probe
    liveness_probe ← copy_flat_ptr x.liveness_probe
    engine_runtimes ← copy_slice (engine_runtime_deep_copy_into l) x.engine_runtimes
    pure (record x {
      resources = resources;
      volume_mounts = volume_mounts;
      command = command;
      args = args;
      readiness_probe = readiness_probe;
      liveness_probe = liveness_probe;
      engine_runtimes = engine_runtimes;
    })

  abbrev inference_role_spec_deep_copy :
      Ptr (GoInferenceRoleSpec l) → Alloc (Ptr (GoInferenceRoleSpec l))
  inference_role_spec_deep_copy = copy_ptr inference_role_spec_deep_copy_into

module _ (l : Library) (laws : LibraryLaws l) where
  pub inference_role_spec_deep_copy_into-IsDeep :
      IsDeep (inference_role_spec_view l) (inference_role_spec_deep_copy_into l)
  unfolding inference_role_spec_deep_copy_into
  inference_role_spec_deep_copy_into-IsDeep =
      let resources = ptr-IsDeep role_resources_deep_copy_into-IsDeep in
      let volume_mounts = flat_slice-IsDeep {A = VolumeMountSpec} in
      let command = flat_slice-IsDeep {A = String} in
      let readiness_probe = ptr-IsDeep (flat-IsDeep {A = ProbeSpec}) in
      let engine_runtimes = slice-IsDeep (engine_runtime_deep_copy_into-IsDeep l laws) in
      record {
        same = λ x _.
            rw
              (
                resources.same x.resources _,
                volume_mounts.same x.volume_mounts _,
                command.same x.command _,
                command.same x.args _,
                readiness_probe.same x.readiness_probe _,
                readiness_probe.same x.liveness_probe _,
                engine_runtimes.same x.engine_runtimes _,
              )
              refl;
        fills = λ x _. Fills-append _ _ _ _ _ (resources.fills x.resources _) (
            Fills-append _ _ _ _ _ (volume_mounts.fills x.volume_mounts _) (
              Fills-append _ _ _ _ _ (command.fills x.command _) (
                Fills-append _ _ _ _ _ (command.fills x.args _) (
                  Fills-append _ _ _ _ _ (readiness_probe.fills x.readiness_probe _) (
                    Fills-append _ _ _ _ _ (readiness_probe.fills x.liveness_probe _)
                      (engine_runtimes.fills x.engine_runtimes _))))));
      }
