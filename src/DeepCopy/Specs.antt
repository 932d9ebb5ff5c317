-- ===== src/DeepCopy/Specs.antt =====
-- The deep copies of the spec and the status of a service.
use pd_manager.Common.{String, ◌++◌, refl}
use pd_manager.Api.{
  EventRecord, PdInferenceServiceSpec, PdInferenceServiceStatus, Phase, RoleStatus,
}
use pd_manager.DeepCopy.Alloc.{
  Slice, Ptr, Alloc, pure, ◌>>=◌, copy_ptr, copy_slice, copy_flat_ptr, copy_flat_slice,
}
use pd_manager.DeepCopy.Views.{
  View, IsDeep, flat, ptr, slice, flat_slice, Fills-append, flat-IsDeep, ptr-IsDeep, slice-IsDeep,
  flat_slice-IsDeep,
}
use pd_manager.DeepCopy.Library.{Library, LibraryLaws}
use pd_manager.DeepCopy.Parts.{
  GoScalingSpec, GoVolumeSpec, scaling_spec_deep_copy_into, scaling_spec_deep_copy_into-IsDeep,
  scaling_spec_view, volume_spec_deep_copy_into, volume_spec_deep_copy_into-IsDeep,
  volume_spec_view,
}
use pd_manager.DeepCopy.Roles.{
  GoInferenceRoleSpec, GoRouterRoleSpec, inference_role_spec_deep_copy_into,
  inference_role_spec_deep_copy_into-IsDeep, inference_role_spec_view,
  router_role_spec_deep_copy_into, router_role_spec_deep_copy_into-IsDeep, router_role_spec_view,
}

pub record GoPdInferenceServiceSpec (l : Library) : Type 0 where
  pub model : String
  pub engine : String
  pub volumes : Slice GoVolumeSpec
  pub router : GoRouterRoleSpec
  pub prefill : GoInferenceRoleSpec l
  pub decode : GoInferenceRoleSpec l
  pub pd_ratio : String
  pub engine_profile_ref : String
  pub scaling : Ptr GoScalingSpec

pub record GoPdInferenceServiceStatus (l : Library) : Type 0 where
  pub phase : Phase
  pub endpoint : String
  pub conditions : Slice l.ConditionObj
  pub role_statuses : Slice RoleStatus
  pub last_event : Ptr EventRecord

module _ (l : Library) where
  abbrev pub inference_service_spec_view : View (GoPdInferenceServiceSpec l) PdInferenceServiceSpec
  inference_service_spec_view = record {
    value = λ x. record {
      model = x.model;
      engine = x.engine;
      volumes = (slice volume_spec_view).value x.volumes;
      router = router_role_spec_view.value x.router;
      prefill = (inference_role_spec_view l).value x.prefill;
      decode = (inference_role_spec_view l).value x.decode;
      pd_ratio = x.pd_ratio;
      engine_profile_ref = x.engine_profile_ref;
      scaling = (ptr scaling_spec_view).value x.scaling;
    };
    refs = λ x.
        (slice volume_spec_view).refs x.volumes
        ++ (router_role_spec_view.refs x.router
            ++ ((inference_role_spec_view l).refs x.prefill
                ++ ((inference_role_spec_view l).refs x.decode
                    ++ ((ptr scaling_spec_view).refs x.scaling))));
  }

  unfoldable pub inference_service_spec_deep_copy_into :
      GoPdInferenceServiceSpec l → Alloc (GoPdInferenceServiceSpec l)
  inference_service_spec_deep_copy_into x = do
    volumes ← copy_slice volume_spec_deep_copy_into x.volumes
    router ← router_role_spec_deep_copy_into x.router
    prefill ← inference_role_spec_deep_copy_into l x.prefill
    decode ← inference_role_spec_deep_copy_into l x.decode
    scaling ← copy_ptr scaling_spec_deep_copy_into x.scaling
    pure (record x {
      volumes = volumes;
      router = router;
      prefill = prefill;
      decode = decode;
      scaling = scaling;
    })

  abbrev inference_service_spec_deep_copy :
      Ptr (GoPdInferenceServiceSpec l) → Alloc (Ptr (GoPdInferenceServiceSpec l))
  inference_service_spec_deep_copy = copy_ptr inference_service_spec_deep_copy_into

  abbrev pub inference_service_status_view :
      View (GoPdInferenceServiceStatus l) PdInferenceServiceStatus
  inference_service_status_view = record {
    value = λ x. record {
      phase = x.phase;
      endpoint = x.endpoint;
      conditions = (slice l.condition).value x.conditions;
      role_statuses = flat_slice.value x.role_statuses;
      last_event = (ptr flat).value x.last_event;
    };
    refs = λ x.
        (slice l.condition).refs x.conditions
        ++ (flat_slice.refs x.role_statuses ++ ((ptr flat).refs x.last_event));
  }

  unfoldable pub inference_service_status_deep_copy_into :
      GoPdInferenceServiceStatus l → Alloc (GoPdInferenceServiceStatus l)
  inference_service_status_deep_copy_into x = do
    conditions ← copy_slice l.copy_condition x.conditions
    role_statuses ← copy_flat_slice x.role_statuses
    last_event ← copy_flat_ptr x.last_event
    pure (record x {
      conditions = conditions;
      role_statuses = role_statuses;
      last_event = last_event;
    })

  abbrev inference_service_status_deep_copy :
      Ptr (GoPdInferenceServiceStatus l) → Alloc (Ptr (GoPdInferenceServiceStatus l))
  inference_service_status_deep_copy = copy_ptr inference_service_status_deep_copy_into

module _ (l : Library) (laws : LibraryLaws l) where
  pub inference_service_spec_deep_copy_into-IsDeep :
      IsDeep (inference_service_spec_view l) (inference_service_spec_deep_copy_into l)
  unfolding inference_service_spec_deep_copy_into
  inference_service_spec_deep_copy_into-IsDeep =
      let volumes = slice-IsDeep volume_spec_deep_copy_into-IsDeep in
      let router = router_role_spec_deep_copy_into-IsDeep in
      let prefill = inference_role_spec_deep_copy_into-IsDeep l laws in
      let scaling = ptr-IsDeep scaling_spec_deep_copy_into-IsDeep in
      record {
        same = λ x _.
            rw
              (
                volumes.same x.volumes _,
                router.same x.router _,
                prefill.same x.prefill _,
                prefill.same x.decode _,
                scaling.same x.scaling _,
              )
              refl;
        fills = λ x _. Fills-append _ _ _ _ _ (volumes.fills x.volumes _) (
            Fills-append _ _ _ _ _ (router.fills x.router _) (
              Fills-append _ _ _ _ _ (prefill.fills x.prefill _)
                (Fills-append _ _ _ _ _ (prefill.fills x.decode _) (scaling.fills x.scaling _))));
      }

  pub inference_service_status_deep_copy_into-IsDeep :
      IsDeep (inference_service_status_view l) (inference_service_status_deep_copy_into l)
  unfolding inference_service_status_deep_copy_into
  inference_service_status_deep_copy_into-IsDeep =
      let conditions = slice-IsDeep laws.condition-IsDeep in
      let role_statuses = flat_slice-IsDeep {A = RoleStatus} in
      let last_event = ptr-IsDeep (flat-IsDeep {A = EventRecord}) in
      record {
        same = λ x _.
            rw
              (
                conditions.same x.conditions _,
                role_statuses.same x.role_statuses _,
                last_event.same x.last_event _,
              )
              refl;
        fills = λ x _. Fills-append _ _ _ _ _ (conditions.fills x.conditions _) (
            Fills-append _ _ _ _ _ (role_statuses.fills x.role_statuses _)
              (last_event.fills x.last_event _));
      }
