-- ===== src/DeepCopy/Defaults.antt =====
-- The deep copies of what a profile says of its hardware and its arguments.
use pd_manager.Common.{ℤ, String, ◌++◌, refl}
use pd_manager.Api.{ApplicabilitySpec, ModelSizeRange, RoleArgs}
use pd_manager.DeepCopy.Alloc.{
  Slice, Ptr, Alloc, pure, ◌>>=◌, copy_ptr, copy_flat_ptr, copy_flat_slice,
}
use pd_manager.DeepCopy.Views.{
  View, IsDeep, flat, ptr, flat_slice, Fills-append, flat-IsDeep, ptr-IsDeep, flat_slice-IsDeep,
}

pub record GoRoleArgs : Type 0 where
  pub router : Slice String
  pub prefill : Slice String
  pub decode : Slice String

pub record GoApplicabilitySpec : Type 0 where
  pub gpu_types : Slice String
  pub min_gpu_memory_gib : Ptr ℤ
  pub tensor_parallel_size : Ptr ℤ
  pub model_size_range : Ptr ModelSizeRange
  pub optimized_for : String
  pub sglang_version_required : String

abbrev pub role_args_view : View GoRoleArgs RoleArgs
role_args_view = record {
  value = λ x. record {
    router = flat_slice.value x.router;
    prefill = flat_slice.value x.prefill;
    decode = flat_slice.value x.decode;
  };
  refs = λ x. flat_slice.refs x.router ++ (flat_slice.refs x.prefill ++ (flat_slice.refs x.decode));
}

unfoldable pub role_args_deep_copy_into : GoRoleArgs → Alloc GoRoleArgs
role_args_deep_copy_into x = do
  router ← copy_flat_slice x.router
  prefill ← copy_flat_slice x.prefill
  decode ← copy_flat_slice x.decode
  pure (record x { router = router; prefill = prefill; decode = decode })

abbrev role_args_deep_copy : Ptr GoRoleArgs → Alloc (Ptr GoRoleArgs)
role_args_deep_copy = copy_ptr role_args_deep_copy_into

pub role_args_deep_copy_into-IsDeep : IsDeep role_args_view role_args_deep_copy_into
unfolding role_args_deep_copy_into
role_args_deep_copy_into-IsDeep =
    let router = flat_slice-IsDeep {A = String} in
    record {
      same =
          λ x _. rw (router.same x.router _, router.same x.prefill _, router.same x.decode _) refl;
      fills = λ x _.
          Fills-append _ _ _ _ _ (router.fills x.router _)
            (Fills-append _ _ _ _ _ (router.fills x.prefill _) (router.fills x.decode _));
    }

abbrev pub applicability_spec_view : View GoApplicabilitySpec ApplicabilitySpec
applicability_spec_view = record {
  value = λ x. record {
    gpu_types = flat_slice.value x.gpu_types;
    min_gpu_memory_gib = (ptr flat).value x.min_gpu_memory_gib;
    tensor_parallel_size = (ptr flat).value x.tensor_parallel_size;
    model_size_range = (ptr flat).value x.model_size_range;
    optimized_for = x.optimized_for;
    sglang_version_required = x.sglang_version_required;
  };
  refs = λ x.
      flat_slice.refs x.gpu_types
      ++ ((ptr flat).refs x.min_gpu_memory_gib
          ++ ((ptr flat).refs x.tensor_parallel_size ++ ((ptr flat).refs x.model_size_range)));
}

unfoldable pub applicability_spec_deep_copy_into : GoApplicabilitySpec → Alloc GoApplicabilitySpec
applicability_spec_deep_copy_into x = do
  gpu_types ← copy_flat_slice x.gpu_types
  min_gpu_memory_gib ← copy_flat_ptr x.min_gpu_memory_gib
  tensor_parallel_size ← copy_flat_ptr x.tensor_parallel_size
  model_size_range ← copy_flat_ptr x.model_size_range
  pure (record x {
    gpu_types = gpu_types;
    min_gpu_memory_gib = min_gpu_memory_gib;
    tensor_parallel_size = tensor_parallel_size;
    model_size_range = model_size_range;
  })

abbrev applicability_spec_deep_copy : Ptr GoApplicabilitySpec → Alloc (Ptr GoApplicabilitySpec)
applicability_spec_deep_copy = copy_ptr applicability_spec_deep_copy_into

pub applicability_spec_deep_copy_into-IsDeep :
    IsDeep applicability_spec_view applicability_spec_deep_copy_into
unfolding applicability_spec_deep_copy_into
applicability_spec_deep_copy_into-IsDeep =
    let gpu_types = flat_slice-IsDeep {A = String} in
    let min_gpu_memory_gib = ptr-IsDeep (flat-IsDeep {A = ℤ}) in
    let model_size_range = ptr-IsDeep (flat-IsDeep {A = ModelSizeRange}) in
    record {
      same = λ x _.
          rw
            (
              gpu_types.same x.gpu_types _,
              min_gpu_memory_gib.same x.min_gpu_memory_gib _,
              min_gpu_memory_gib.same x.tensor_parallel_size _,
              model_size_range.same x.model_size_range _,
            )
            refl;
      fills = λ x _. Fills-append _ _ _ _ _ (gpu_types.fills x.gpu_types _) (
          Fills-append _ _ _ _ _ (min_gpu_memory_gib.fills x.min_gpu_memory_gib _) (
            Fills-append _ _ _ _ _ (min_gpu_memory_gib.fills x.tensor_parallel_size _)
              (model_size_range.fills x.model_size_range _)));
    }
