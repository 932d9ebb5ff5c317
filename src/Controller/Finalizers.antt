-- ===== src/Controller/Finalizers.antt =====
-- What `ensureFinalizer` leaves in the cluster.
use mathlib.Core.Path.{subst}
use pd_manager.Common.{
  ◌≡◌, ◌⊎◌, inl, inr, true, some, ok, returned, returned_result, returned-injective, refl, sym, ap,
  ◌∙◌, Bool-cases,
}
use pd_manager.Platform.{Platform, FinalizerLaws}
use pd_manager.Cluster.{Client, ClientLaws, service_key}
use pd_manager.Api.{PdInferenceService, is_zero}
use pd_manager.Controller.Reconcile.{finalizer, ensure_finalizer, with_finalizers}

module _ (p : Platform) (c : Client p) (laws : ClientLaws p c) where
  -- The service that `ensureFinalizer` returns is the one in the store; it has the key and the status
  -- of the one that was given.
  pub ensure_finalizer-stores :
      (pdis ensured : PdInferenceService) (w : c.World)
      → is_zero pdis.metadata.deletion_timestamp ≡ true
      → laws.stored_service (service_key pdis) w ≡ some pdis
      → (ensure_finalizer p c pdis w).0 ≡ returned (ok ensured)
      → (ensured.status ≡ pdis.status)
        × (service_key ensured ≡ service_key pdis)
        × (laws.stored_service (service_key ensured) (ensure_finalizer p c pdis w).1 ≡ some ensured)
  unfolding ensure_finalizer
  ensure_finalizer-stores pdis ensured w live stored done =
      elim (Bool-cases (p.contains_finalizer finalizer pdis.metadata.finalizers)) [
        | inl present ↦ rw present (kept (returned-injective _ _ (rw present at done)))
        | inr absent ↦ rw absent (added (returned_result _ _ (rw absent at done)))
      ]
    where
      kept :
          pdis ≡ ensured
          → (ensured.status ≡ pdis.status)
            × (service_key ensured ≡ service_key pdis)
            × (laws.stored_service (service_key ensured) w ≡ some ensured)
      kept same =
          subst
            (λ s.
              (s.status ≡ pdis.status)
              × (service_key s ≡ service_key pdis)
              × (laws.stored_service (service_key s) w ≡ some s))
            same (refl, refl, stored)

      added :
          (c.update_service (with_finalizers p c pdis) w).0 ≡ ok ensured
          → (ensured.status ≡ pdis.status)
            × (service_key ensured ≡ service_key pdis)
            × (laws.stored_service
                  (service_key ensured)
                  (c.update_service (with_finalizers p c pdis) w).1
                ≡ some ensured)
      added accepted =
          let (held, same) =
            laws.update_service_stores (with_finalizers p c pdis) pdis ensured w live stored
              accepted in
          (
            ap (λ s. s.status) same,
            ap service_key same,
            ap
                  (λ s.
                    laws.stored_service (service_key s)
                      (c.update_service (with_finalizers p c pdis) w).1)
                  same
                ∙ held,
          )

  -- Its key is that of the service that was given, whatever is stored.
  pub ensure_finalizer-key :
      (pdis ensured : PdInferenceService) (w : c.World)
      → (ensure_finalizer p c pdis w).0 ≡ returned (ok ensured)
      → service_key ensured ≡ service_key pdis
  unfolding ensure_finalizer
  ensure_finalizer-key pdis ensured w done =
      elim (Bool-cases (p.contains_finalizer finalizer pdis.metadata.finalizers)) [
        | inl present ↦ ap service_key (sym (returned-injective _ _ (rw present at done)))
        | inr absent ↦
            laws.update_service_key (with_finalizers p c pdis) ensured w
              (returned_result _ _ (rw absent at done))
      ]

  -- It has the finalizer.
  pub ensure_finalizer-finalized :
      (finalizers : FinalizerLaws p) (pdis ensured : PdInferenceService) (w : c.World)
      → is_zero pdis.metadata.deletion_timestamp ≡ true
      → laws.stored_service (service_key pdis) w ≡ some pdis
      → (ensure_finalizer p c pdis w).0 ≡ returned (ok ensured)
      → p.contains_finalizer finalizer ensured.metadata.finalizers ≡ true
  unfolding ensure_finalizer
  ensure_finalizer-finalized finalizers pdis ensured w live stored done =
      elim (Bool-cases (p.contains_finalizer finalizer pdis.metadata.finalizers)) [
        | inl present ↦
            let same = returned-injective _ _ (rw present at done) in
            ap (λ s. p.contains_finalizer finalizer s.metadata.finalizers) (sym same) ∙ present
        | inr absent ↦
            let accepted = returned_result _ _ (rw absent at done) in
            let (_, same) =
              laws.update_service_stores (with_finalizers p c pdis) pdis ensured w live stored
                accepted in
            ap (λ s. p.contains_finalizer finalizer s.metadata.finalizers) same
            ∙ finalizers.contains-add finalizer pdis.metadata.finalizers
      ]

  -- It is the service that was given, or that one with the finalizer and its admitted spec.
  pub ensure_finalizer-admits :
      (pdis ensured : PdInferenceService) (w : c.World)
      → is_zero pdis.metadata.deletion_timestamp ≡ true
      → laws.stored_service (service_key pdis) w ≡ some pdis
      → (ensure_finalizer p c pdis w).0 ≡ returned (ok ensured)
      → (ensured ≡ pdis)
        ⊎ (ensured ≡ record {
          metadata = (with_finalizers p c pdis).metadata;
          spec = laws.admit pdis.spec;
          status = pdis.status;
        })
  unfolding ensure_finalizer
  ensure_finalizer-admits pdis ensured w live stored done =
      elim (Bool-cases (p.contains_finalizer finalizer pdis.metadata.finalizers)) [
        | inl present ↦ inl (sym (returned-injective _ _ (rw present at done)))
        | inr absent ↦
            inr
              (laws.update_service_stores (with_finalizers p c pdis) pdis ensured w live stored
                (returned_result _ _ (rw absent at done))).1
      ]
