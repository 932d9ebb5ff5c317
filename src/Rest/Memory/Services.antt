-- ===== src/Rest/Memory/Services.antt =====
-- The services of the API in memory keep `BackendLaws`.
use pd_manager.Common.{
  ◌≡◌, ◌≢◌, ◌⊎◌, inr, Option, none, some, ok, err, Error, refl, sym, ap, ◌∙◌, false,
}
use pd_manager.Api.{is_zero, NamespacedName, PdInferenceService}
use pd_manager.Webhook.{default_spec}
use pd_manager.Cluster.{service_key}
use pd_manager.Cluster.Keyed.{find, put, find-key, find-put_self, find-put_ne}
use pd_manager.Rest.{BackendLaws}
use pd_manager.Rest.Lifecycle.{Finds}
use pd_manager.Rest.Memory.{
  Objects, memory, find_service, add_service, replace_service, marked, mark_service, found-some,
  found-none, found-ok,
}

module _ (s : PdInferenceService) (w : Objects) where
  add_service-stores :
      (o : Option PdInferenceService) (s' : PdInferenceService)
      → (add_service o s w).0 ≡ ok s'
      → (find_service (service_key s) (add_service o s w).1 ≡ some s')
        × (s'.spec ≡ default_spec s.spec)
  add_service-stores none s' done =
      let same : record s { spec = default_spec s.spec } ≡ s' = cc in
      (find-put_self service_key _ w.services ∙ ap some same, ap (λ x. x.spec) (sym same))
  add_service-stores (some old) s' done = cc

  add_service-others :
      (o : Option PdInferenceService) (k : NamespacedName)
      → k ≢ service_key s
      → find_service k (add_service o s w).1 ≡ find_service k w
  add_service-others none k h = find-put_ne service_key _ k w.services h
  add_service-others (some old) k h = refl

  replace_service-stores :
      (o : Option PdInferenceService) (old s' : PdInferenceService)
      → o ≡ some old
      → (replace_service o s w).0 ≡ ok s'
      → (find_service (service_key s) (replace_service o s w).1 ≡ some s')
        × (s' ≡ record { metadata = s.metadata; spec = default_spec s.spec; status = old.status })
  replace_service-stores none old s' there done = cc
  replace_service-stores (some x) old s' there done =
      let same : record { metadata = s.metadata; spec = default_spec s.spec; status = x.status }
          ≡ s' =
        cc in
      let found : x ≡ old = cc in
      (
        find-put_self service_key _ w.services ∙ ap some same,
        sym same
            ∙ ap
                (λ y. record {
                  metadata = s.metadata;
                  spec = default_spec s.spec;
                  status = y.status;
                })
                found,
      )

  replace_service-others :
      (o : Option PdInferenceService) (k : NamespacedName)
      → k ≢ service_key s
      → find_service k (replace_service o s w).1 ≡ find_service k w
  replace_service-others none k h = refl
  replace_service-others (some old) k h = find-put_ne service_key _ k w.services h

  module _ (key : NamespacedName) where
    mark_service-stores :
        (o : Option PdInferenceService)
        → find_service key w ≡ o
        → (mark_service o w).0 ≡ ok tt
        → (find_service key (mark_service o w).1 ≡ none)
          ⊎ ((s' : PdInferenceService) × (find_service key (mark_service o w).1 ≡ some s')
              × (is_zero s'.metadata.deletion_timestamp ≡ false))
    mark_service-stores none there done = cc
    mark_service-stores (some old) there done = inr (
      marked old,
      ap (λ k. find service_key k (put service_key (marked old) w.services))
            (sym (find-key service_key key w.services there))
          ∙ find-put_self service_key (marked old) w.services,
      refl,
    )

    mark_service-missing :
        (o : Option PdInferenceService) (e : Error)
        → find_service key w ≡ o
        → (mark_service o w).0 ≡ err e
        → find_service key (mark_service o w).1 ≡ none
    mark_service-missing none e there done = there
    mark_service-missing (some old) e there done = cc

    mark_service-others :
        (o : Option PdInferenceService) (k : NamespacedName)
        → find_service key w ≡ o
        → k ≢ key
        → find_service k (mark_service o w).1 ≡ find_service k w
    mark_service-others none k there h = refl
    mark_service-others (some old) k there h =
        find-put_ne service_key (marked old) k w.services
          (λ e. h (e ∙ find-key service_key key w.services there))

pub memory_laws : BackendLaws memory
memory_laws = record {
  stored = find_service;
  admit = default_spec;
  get_key = λ k w s h. find-key service_key k w.services (found-some _ s h);
  get_stored = λ k w s h. found-some _ s h;
  create_stores = λ s s' w done. add_service-stores s w (find_service (service_key s) w) s' done;
  update_stores = λ s old s' w there done.
      replace_service-stores s w (find_service (service_key s) w) old s' there done;
  delete_marks = λ s w done.
      mark_service-stores s w (service_key s) (find_service (service_key s) w) refl done;
  get_missing = λ k w e h _. found-none _ e h;
  delete_missing = λ s w e h _.
      mark_service-missing s w (service_key s) (find_service (service_key s) w) e refl h;
  create_others = λ s w k h. add_service-others s w (find_service (service_key s) w) k h;
  update_others = λ s w k h. replace_service-others s w (find_service (service_key s) w) k h;
  delete_others =
      λ s w k h. mark_service-others s w (service_key s) (find_service (service_key s) w) k refl h;
}

pub memory-Finds : Finds memory memory_laws
unfolding memory_laws
memory-Finds k w s h = found-ok (find_service k w) s h
