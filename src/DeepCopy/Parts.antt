-- ===== src/DeepCopy/Parts.antt =====
-- The deep copies of volumes, resources and scaling.
use pd_manager.Common.{ℤ, String, ◌++◌, refl}
use pd_manager.Api.{
  EmptyDirVolume, HostPathVolume, HpaSpec, PvcVolume, RoleResources, ScalingSpec, VolumeSpec,
}
use pd_manager.DeepCopy.Alloc.{Ptr, MapRef, Alloc, pure, ◌>>=◌, copy_ptr, copy_flat_ptr, copy_map}
use pd_manager.DeepCopy.Views.{
  View, IsDeep, flat, ptr, string_map, Fills-append, flat-IsDeep, ptr-IsDeep, string_map-IsDeep,
}

pub record GoVolumeSpec : Type 0 where
  pub name : String
  pub host_path : Ptr HostPathVolume
  pub empty_dir : Ptr EmptyDirVolume
  pub pvc : Ptr PvcVolume

pub record GoRoleResources : Type 0 where
  pub requests : MapRef
  pub limits : MapRef

pub record GoHpaSpec : Type 0 where
  pub min_replicas : Ptr ℤ
  pub max_replicas : ℤ

pub record GoScalingSpec : Type 0 where
  pub decode : Ptr GoHpaSpec
  pub prefill : Ptr GoHpaSpec

abbrev pub volume_spec_view : View GoVolumeSpec VolumeSpec
volume_spec_view = record {
  value = λ x. record {
    name = x.name;
    host_path = (ptr flat).value x.host_path;
    empty_dir = (ptr flat).value x.empty_dir;
    pvc = (ptr flat).value x.pvc;
  };
  refs =
      λ x. (ptr flat).refs x.host_path ++ ((ptr flat).refs x.empty_dir ++ ((ptr flat).refs x.pvc));
}

unfoldable pub volume_spec_deep_copy_into : GoVolumeSpec → Alloc GoVolumeSpec
volume_spec_deep_copy_into x = do
  host_path ← copy_flat_ptr x.host_path
  empty_dir ← copy_flat_ptr x.empty_dir
  pvc ← copy_flat_ptr x.pvc
  pure (record x { host_path = host_path; empty_dir = empty_dir; pvc = pvc })

abbrev volume_spec_deep_copy : Ptr GoVolumeSpec → Alloc (Ptr GoVolumeSpec)
volume_spec_deep_copy = copy_ptr volume_spec_deep_copy_into

pub volume_spec_deep_copy_into-IsDeep : IsDeep volume_spec_view volume_spec_deep_copy_into
unfolding volume_spec_deep_copy_into
volume_spec_deep_copy_into-IsDeep =
    let host_path = ptr-IsDeep (flat-IsDeep {A = HostPathVolume}) in
    let empty_dir = ptr-IsDeep (flat-IsDeep {A = EmptyDirVolume}) in
    let pvc = ptr-IsDeep (flat-IsDeep {A = PvcVolume}) in
    record {
      same = λ x _.
          rw (host_path.same x.host_path _, empty_dir.same x.empty_dir _, pvc.same x.pvc _) refl;
      fills = λ x _.
          Fills-append _ _ _ _ _ (host_path.fills x.host_path _)
            (Fills-append _ _ _ _ _ (empty_dir.fills x.empty_dir _) (pvc.fills x.pvc _));
    }

abbrev pub role_resources_view : View GoRoleResources RoleResources
role_resources_view = record {
  value =
      λ x. record { requests = string_map.value x.requests; limits = string_map.value x.limits };
  refs = λ x. string_map.refs x.requests ++ (string_map.refs x.limits);
}

unfoldable pub role_resources_deep_copy_into : GoRoleResources → Alloc GoRoleResources
role_resources_deep_copy_into x = do
  requests ← copy_map x.requests
  limits ← copy_map x.limits
  pure (record x { requests = requests; limits = limits })

abbrev role_resources_deep_copy : Ptr GoRoleResources → Alloc (Ptr GoRoleResources)
role_resources_deep_copy = copy_ptr role_resources_deep_copy_into

pub role_resources_deep_copy_into-IsDeep : IsDeep role_resources_view role_resources_deep_copy_into
unfolding role_resources_deep_copy_into
role_resources_deep_copy_into-IsDeep =
    let requests = string_map-IsDeep in
    record {
      same = λ x _. rw (requests.same x.requests _, requests.same x.limits _) refl;
      fills =
          λ x _. Fills-append _ _ _ _ _ (requests.fills x.requests _) (requests.fills x.limits _);
    }

abbrev hpa_spec_view : View GoHpaSpec HpaSpec
hpa_spec_view = record {
  value =
      λ x. record { min_replicas = (ptr flat).value x.min_replicas; max_replicas = x.max_replicas };
  refs = λ x. (ptr flat).refs x.min_replicas;
}

unfoldable pub hpa_spec_deep_copy_into : GoHpaSpec → Alloc GoHpaSpec
hpa_spec_deep_copy_into x = do
  min_replicas ← copy_flat_ptr x.min_replicas
  pure (record x { min_replicas = min_replicas })

abbrev hpa_spec_deep_copy : Ptr GoHpaSpec → Alloc (Ptr GoHpaSpec)
hpa_spec_deep_copy = copy_ptr hpa_spec_deep_copy_into

hpa_spec_deep_copy_into-IsDeep : IsDeep hpa_spec_view hpa_spec_deep_copy_into
unfolding hpa_spec_deep_copy_into
hpa_spec_deep_copy_into-IsDeep =
    let min_replicas = ptr-IsDeep (flat-IsDeep {A = ℤ}) in
    record {
      same = λ x _. rw (min_replicas.same x.min_replicas _) refl;
      fills = λ x _. min_replicas.fills x.min_replicas _;
    }

abbrev pub scaling_spec_view : View GoScalingSpec ScalingSpec
scaling_spec_view = record {
  value = λ x. record {
    decode = (ptr hpa_spec_view).value x.decode;
    prefill = (ptr hpa_spec_view).value x.prefill;
  };
  refs = λ x. (ptr hpa_spec_view).refs x.decode ++ ((ptr hpa_spec_view).refs x.prefill);
}

unfoldable pub scaling_spec_deep_copy_into : GoScalingSpec → Alloc GoScalingSpec
scaling_spec_deep_copy_into x = do
  decode ← copy_ptr hpa_spec_deep_copy_into x.decode
  prefill ← copy_ptr hpa_spec_deep_copy_into x.prefill
  pure (record x { decode = decode; prefill = prefill })

abbrev scaling_spec_deep_copy : Ptr GoScalingSpec → Alloc (Ptr GoScalingSpec)
scaling_spec_deep_copy = copy_ptr scaling_spec_deep_copy_into

pub scaling_spec_deep_copy_into-IsDeep : IsDeep scaling_spec_view scaling_spec_deep_copy_into
unfolding scaling_spec_deep_copy_into
scaling_spec_deep_copy_into-IsDeep =
    let decode = ptr-IsDeep hpa_spec_deep_copy_into-IsDeep in
    record {
      same = λ x _. rw (decode.same x.decode _, decode.same x.prefill _) refl;
      fills = λ x _. Fills-append _ _ _ _ _ (decode.fills x.decode _) (decode.fills x.prefill _);
    }
