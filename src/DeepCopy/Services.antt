-- ===== src/DeepCopy/Services.antt =====
-- The deep copies of `PDInferenceService` and of a list of them.
use pd_manager.Common.{List, ◌++◌, refl}
use pd_manager.Api.{PdInferenceService}
use pd_manager.DeepCopy.Alloc.{Slice, Ptr, Alloc, pure, ◌>>=◌, copy_ptr, copy_slice}
use pd_manager.DeepCopy.Views.{View, IsDeep, slice, Fills-append, slice-IsDeep}
use pd_manager.DeepCopy.Library.{Library, LibraryLaws, TypeMeta, ListMeta}
use pd_manager.DeepCopy.Specs.{
  GoPdInferenceServiceSpec, GoPdInferenceServiceStatus, inference_service_spec_deep_copy_into,
  inference_service_spec_deep_copy_into-IsDeep, inference_service_spec_view,
  inference_service_status_deep_copy_into, inference_service_status_deep_copy_into-IsDeep,
  inference_service_status_view,
}

pub record GoPdInferenceService (l : Library) : Type 0 where
  pub type_meta : TypeMeta
  pub metadata : l.ObjectMetaObj
  pub spec : GoPdInferenceServiceSpec l
  pub status : GoPdInferenceServiceStatus l

pub record GoPdInferenceServiceList (l : Library) : Type 0 where
  pub type_meta : TypeMeta
  pub metadata : l.ListMetaObj
  pub items : Slice (GoPdInferenceService l)

module _ (l : Library) where
  abbrev pub inference_service_view : View (GoPdInferenceService l) (TypeMeta × PdInferenceService)
  inference_service_view = record {
    value = λ x. (
      x.type_meta,
      record {
        metadata = l.object_meta.value x.metadata;
        spec = (inference_service_spec_view l).value x.spec;
        status = (inference_service_status_view l).value x.status;
      },
    );
    refs = λ x.
        l.object_meta.refs x.metadata
        ++ ((inference_service_spec_view l).refs x.spec
            ++ ((inference_service_status_view l).refs x.status));
  }

  unfoldable pub inference_service_deep_copy_into :
      GoPdInferenceService l → Alloc (GoPdInferenceService l)
  inference_service_deep_copy_into x = do
    metadata ← l.copy_object_meta x.metadata
    spec ← inference_service_spec_deep_copy_into l x.spec
    status ← inference_service_status_deep_copy_into l x.status
    pure (record x { metadata = metadata; spec = spec; status = status })

  abbrev pub inference_service_deep_copy :
      Ptr (GoPdInferenceService l) → Alloc (Ptr (GoPdInferenceService l))
  inference_service_deep_copy = copy_ptr inference_service_deep_copy_into

  abbrev pub inference_service_list_view :
      View (GoPdInferenceServiceList l) (TypeMeta × ListMeta × List (TypeMeta × PdInferenceService))
  inference_service_list_view = record {
    value = λ x.
        (x.type_meta, l.list_meta.value x.metadata, (slice inference_service_view).value x.items);
    refs = λ x. l.list_meta.refs x.metadata ++ ((slice inference_service_view).refs x.items);
  }

  unfoldable pub inference_service_list_deep_copy_into :
      GoPdInferenceServiceList l → Alloc (GoPdInferenceServiceList l)
  inference_service_list_deep_copy_into x = do
    metadata ← l.copy_list_meta x.metadata
    items ← copy_slice inference_service_deep_copy_into x.items
    pure (record x { metadata = metadata; items = items })

  abbrev pub inference_service_list_deep_copy :
      Ptr (GoPdInferenceServiceList l) → Alloc (Ptr (GoPdInferenceServiceList l))
  inference_service_list_deep_copy = copy_ptr inference_service_list_deep_copy_into

module _ (l : Library) (laws : LibraryLaws l) where
  pub inference_service_deep_copy_into-IsDeep :
      IsDeep (inference_service_view l) (inference_service_deep_copy_into l)
  unfolding inference_service_deep_copy_into
  inference_service_deep_copy_into-IsDeep =
      let metadata = laws.object_meta-IsDeep in
      let spec = inference_service_spec_deep_copy_into-IsDeep l laws in
      let status = inference_service_status_deep_copy_into-IsDeep l laws in
      record {
        same =
            λ x _. rw (metadata.same x.metadata _, spec.same x.spec _, status.same x.status _) refl;
        fills = λ x _.
            Fills-append _ _ _ _ _ (metadata.fills x.metadata _)
              (Fills-append _ _ _ _ _ (spec.fills x.spec _) (status.fills x.status _));
      }

  pub inference_service_list_deep_copy_into-IsDeep :
      IsDeep (inference_service_list_view l) (inference_service_list_deep_copy_into l)
  unfolding inference_service_list_deep_copy_into
  inference_service_list_deep_copy_into-IsDeep =
      let metadata = laws.list_meta-IsDeep in
      let items = slice-IsDeep inference_service_deep_copy_into-IsDeep in
      record {
        same = λ x _. rw (metadata.same x.metadata _, items.same x.items _) refl;
        fills = λ x _. Fills-append _ _ _ _ _ (metadata.fills x.metadata _) (items.fills x.items _);
      }
