-- ===== src/DeepCopy/Objects.antt =====
-- The copies as `runtime.Object`s: `DeepCopyObject` of the types that the scheme registers.
use pd_manager.Common.{Option, none, some}
use pd_manager.DeepCopy.Alloc.{Ref, Ptr, Alloc, pure, ◌>>=◌}
use pd_manager.DeepCopy.Library.{Library}
use pd_manager.DeepCopy.Services.{
  GoPdInferenceService, GoPdInferenceServiceList, inference_service_deep_copy,
  inference_service_list_deep_copy,
}
use pd_manager.DeepCopy.Profiles.{
  GoPdEngineProfile, GoPdEngineProfileList, engine_profile_deep_copy, engine_profile_list_deep_copy,
}

-- What a `runtime.Object` that is not nil holds: the type and the pointer.
pub data CopiedObject (l : Library) : Type 0 where
  inference_service : Ref (GoPdInferenceService l) → CopiedObject l
  inference_service_list : Ref (GoPdInferenceServiceList l) → CopiedObject l
  engine_profile : Ref (GoPdEngineProfile l) → CopiedObject l
  engine_profile_list : Ref (GoPdEngineProfileList l) → CopiedObject l

module _ (l : Library) where
  -- `if c := in.DeepCopy(); c != nil { return c }; return nil`
  abbrev object_of : {A : Type 0} → (Ref A → CopiedObject l) → Ptr A → Option (CopiedObject l)
  object_of wrap none = none
  object_of wrap (some c) = some (wrap c)

  abbrev inference_service_deep_copy_object :
      Ptr (GoPdInferenceService l) → Alloc (Option (CopiedObject l))
  inference_service_deep_copy_object p = do
    c ← inference_service_deep_copy l p
    pure (object_of inference_service c)

  abbrev inference_service_list_deep_copy_object :
      Ptr (GoPdInferenceServiceList l) → Alloc (Option (CopiedObject l))
  inference_service_list_deep_copy_object p = do
    c ← inference_service_list_deep_copy l p
    pure (object_of inference_service_list c)

  abbrev engine_profile_deep_copy_object :
      Ptr (GoPdEngineProfile l) → Alloc (Option (CopiedObject l))
  engine_profile_deep_copy_object p = do
    c ← engine_profile_deep_copy l p
    pure (object_of engine_profile c)

  abbrev engine_profile_list_deep_copy_object :
      Ptr (GoPdEngineProfileList l) → Alloc (Option (CopiedObject l))
  engine_profile_list_deep_copy_object p = do
    c ← engine_profile_list_deep_copy l p
    pure (object_of engine_profile_list c)
