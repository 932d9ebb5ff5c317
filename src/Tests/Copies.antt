-- ===== src/Tests/Copies.antt =====
-- Deep copies of concrete objects in memory.
use pd_manager.Common.{ℕ, ◌≡◌, pos, String, Option, none, some, [], ◌∷◌, refl, arith}
use pd_manager.Api.{EnvVar, ObjectMeta, Condition, pending}
use pd_manager.DeepCopy.Alloc.{Ref, Ptr, Slice, StringMap, Alloc, pure, ◌>>=◌, copy_flat_slice}
use pd_manager.DeepCopy.Views.{View, IsDeep, flat, ptr, flat_slice, flat-IsDeep, flat_slice-IsDeep}
use pd_manager.DeepCopy.Library.{Library, LibraryLaws, ListMeta}
use pd_manager.DeepCopy.Parts.{GoVolumeSpec, GoRoleResources}
use pd_manager.DeepCopy.Roles.{GoRouterRoleSpec, GoInferenceRoleSpec}
use pd_manager.DeepCopy.Services.{
  GoPdInferenceService, inference_service_view, inference_service_deep_copy,
}
use pd_manager.DeepCopy.Profiles.{
  GoPdEngineProfile, no_commands, all_commands, engine_profile_view, engine_profile_deep_copy_into,
}
use pd_manager.DeepCopy.Separate.{
  AreNew, inference_service_deep_copy-AreNew, engine_profile_deep_copy-shares,
}
use pd_manager.Tests.Samples.{metadata_of}

-- Object metadata with its finalizers in memory of their own.
abbrev MetaObj : Type 0
MetaObj = ObjectMeta × Slice String

abbrev meta_view : View MetaObj ObjectMeta
meta_view = record {
  value = λ m. record (m.0) { finalizers = flat_slice.value m.1 };
  refs = λ m. flat_slice.refs m.1;
}

abbrev copy_meta : MetaObj → Alloc MetaObj
copy_meta m = do finalizers ← copy_flat_slice m.1; pure (m.0, finalizers)

meta-IsDeep : IsDeep meta_view copy_meta
meta-IsDeep =
    let finalizers = flat_slice-IsDeep {A = String} in
    record {
      same = λ m next. rw (finalizers.same m.1 next) refl;
      fills = λ m next. finalizers.fills m.1 next;
    }

abbrev library : Library
library = record {
  EnvVarObj = EnvVar;
  ObjectMetaObj = MetaObj;
  ListMetaObj = ListMeta;
  ConditionObj = Condition;
  env_var = flat;
  object_meta = meta_view;
  list_meta = flat;
  condition = flat;
  copy_env_var = pure;
  copy_object_meta = copy_meta;
  copy_list_meta = pure;
  copy_condition = pure;
}

library_laws : LibraryLaws library
library_laws = record {
  env_var-IsDeep = flat-IsDeep;
  object_meta-IsDeep = meta-IsDeep;
  list_meta-IsDeep = flat-IsDeep;
  condition-IsDeep = flat-IsDeep;
}

abbrev at : {A : Type 0} → ℕ → A → Option (Ref A)
at address target = some (record { address = address; target = target })

-- Both inference roles refer to the same arguments in memory.
abbrev shared_args : Slice String
shared_args = at 6 ("--tp" ∷ ("2" ∷ []))

abbrev limits : StringMap
limits = record {
  entries = ("memory", "64Gi") ∷ (("cpu", "8") ∷ []);
  distinct = (refl, (refl, tt));
}

abbrev resources : GoRoleResources
resources = record { requests = none; limits = at 5 limits }

abbrev role : GoInferenceRoleSpec library
role = record {
  image = "engine";
  replicas = pos 2;
  gpu = "2";
  gpu_type = "h100";
  resources = at 4 resources;
  volume_mounts = at 3 [];
  command = none;
  args = shared_args;
  readiness_probe = none;
  liveness_probe = none;
  engine_runtimes = at 7 (record { profile_name = "patio"; containers = none } ∷ []);
}

abbrev router_role : GoRouterRoleSpec
router_role = record {
  image = "router";
  replicas = pos 1;
  resources = none;
  volume_mounts = none;
  command = at 8 ("serve" ∷ []);
  args = none;
  readiness_probe = none;
  liveness_probe = none;
}

abbrev volume : GoVolumeSpec
volume = record {
  name = "weights";
  host_path = at 2 (record { path = "/models"; type = "" });
  empty_dir = none;
  pvc = none;
}

abbrev service : GoPdInferenceService library
service = record {
  type_meta = record { kind = "PDInferenceService"; api_version = "pdai.io/v1alpha1" };
  metadata = (metadata_of "qwen", at 9 ("pdai.io/finalizer" ∷ []));
  spec = record {
    model = "qwen";
    engine = "sglang";
    volumes = at 1 (volume ∷ []);
    router = router_role;
    prefill = role;
    decode = role;
    pd_ratio = "";
    engine_profile_ref = "";
    scaling = none;
  };
  status = record {
    phase = pending;
    endpoint = "";
    conditions = none;
    role_statuses = none;
    last_event = at 10 (record { reason = "r"; message = "m" });
  };
}

abbrev pointer : Ptr (GoPdInferenceService library)
pointer = at 0 service

abbrev profile : GoPdEngineProfile library
profile = record {
  type_meta = record { kind = "PDEngineProfile"; api_version = "pdai.io/v1alpha1" };
  metadata = (metadata_of "sglang-h100", none);
  spec = record {
    description = "";
    applicability = none;
    images = record { router = "router"; prefill = "engine"; decode = "engine" };
    role_commands = at 1 (record { router = none; prefill = at 2 ("serve" ∷ []); decode = none });
    role_args = at 3 (record { router = none; prefill = shared_args; decode = shared_args });
    engine_runtimes = none;
  };
  status = record {};
}

inference_service_deep_copy-AreNew_example :
    ((ptr (inference_service_view library)).value (inference_service_deep_copy library pointer 20).0
      ≡ (ptr (inference_service_view library)).value pointer)
    × AreNew ((ptr (inference_service_view library)).refs pointer) (
        (ptr (inference_service_view library)).refs
          (inference_service_deep_copy library pointer 20).0)
inference_service_deep_copy-AreNew_example =
    inference_service_deep_copy-AreNew library library_laws pointer 20 (ground arith)

engine_profile_deep_copy-shares_example :
    ((engine_profile_view library all_commands).value
        (engine_profile_deep_copy_into library profile 20).0
      ≡ (engine_profile_view library all_commands).value profile)
    × AreNew ((engine_profile_view library all_commands).refs profile) (
        (engine_profile_view library no_commands).refs
          (engine_profile_deep_copy_into library profile 20).0)
    × ((engine_profile_deep_copy_into library profile 20).0.spec.role_commands
        ≡ profile.spec.role_commands)
engine_profile_deep_copy-shares_example =
    engine_profile_deep_copy-shares library library_laws profile 20 (ground arith)
