-- ===== src/Controller/Ordering.antt =====
-- The finalizer is stored before any group is touched.
use mathlib.Core.Path.{subst}
use pd_manager.Common.{
  ◌≡◌, ◌≢◌, ◌⊎◌, inl, inr, true, Option, none, some, Result, ok, err, Outcome, returned, panicked,
  is_not_found, refl, sym, ap, ◌∙◌, Bool-cases,
}
use pd_manager.Platform.{Platform, FinalizerLaws}
use pd_manager.Cluster.{Client, ClientLaws, IsFresh, service_key}
use pd_manager.Api.{NamespacedName, PdInferenceService, is_zero}
use pd_manager.Config.{MergedConfig, resolve}
use pd_manager.Translator.{build}
use pd_manager.Workload.{RoleBasedGroup}
use pd_manager.Controller.Action.{
  Action, Preserves, Preserves->>=, continue, pure, write, or_panic, ◌>>=◌,
}
use pd_manager.Controller.Applied.{apply_on-services}
use pd_manager.Controller.Finalizers.{ensure_finalizer-stores, ensure_finalizer-finalized}
use pd_manager.Controller.Groups.{ensure_finalizer-KeepsGroup, handle_deletion-KeepsGroup}
use pd_manager.Controller.Reconcile.{
  finalizer, CtrlResult, ensure_finalizer, apply_rbg, set_failed_status, sync_on, sync_status,
  reconcile_with, reconcile_on, reconcile_live, reconcile_fetched, reconcile,
}

module _ (p : Platform) (c : Client p) (laws : ClientLaws p c) (k : NamespacedName) where
  -- The service under the key `k` is stored with the finalizer.
  abbrev pub IsFinalized : c.World → Type 0
  IsFinalized w =
      (s : PdInferenceService) × (laws.stored_service k w ≡ some s)
      × (p.contains_finalizer finalizer s.metadata.finalizers ≡ true)

  write_status-IsFinalized :
      (pdis : PdInferenceService) (r : CtrlResult) (w : c.World)
      → service_key pdis ≡ k
      → Preserves IsFinalized (write (c.update_status pdis) >>= λ _. pure r) w
  write_status-IsFinalized pdis r w key =
      Preserves->>= IsFinalized (write (c.update_status pdis)) (λ _. pure r) w
        (λ (s, stored, has).
          let (status, kept) =
            laws.update_status_keeps pdis s w (ap (λ j. laws.stored_service j w) key ∙ stored) in
          (
            record s { status = status },
            ap (λ j. laws.stored_service j (c.update_status pdis w).1) (sym key) ∙ kept,
            has,
          ))
        (λ _ h. h)

  sync_on-IsFinalized :
      (answer : Result (RoleBasedGroup p.Quantity)) (pdis : PdInferenceService) (w : c.World)
      → service_key pdis ≡ k
      → Preserves IsFinalized (sync_on p c answer pdis) w
  sync_on-IsFinalized (ok rbg) pdis w key = write_status-IsFinalized _ _ w key
  sync_on-IsFinalized (err e) pdis w key = elim (Bool-cases (is_not_found e)) [
    | inl missing ↦ rw missing (write_status-IsFinalized _ _ w key)
    | inr other ↦ rw other (λ h. h)
  ]

  sync_status-IsFinalized :
      (pdis : PdInferenceService) (w : c.World)
      → service_key pdis ≡ k
      → Preserves IsFinalized (sync_status p c pdis) w
  unfolding sync_status
  sync_status-IsFinalized pdis w = sync_on-IsFinalized (c.get_group (service_key pdis) w) pdis w

  -- A group is applied: the services stay as they are.
  apply_rbg-IsFinalized :
      (pdis : PdInferenceService) (desired : RoleBasedGroup p.Quantity) (w : c.World)
      → Preserves IsFinalized (apply_rbg p c pdis desired) w
  unfolding apply_rbg
  apply_rbg-IsFinalized pdis desired w (s, stored, has) =
      (s, apply_on-services p c laws (c.get_group (service_key pdis) w) desired k w ∙ stored, has)

  reconcile_with-IsFinalized :
      (pdis : PdInferenceService) (cfg : MergedConfig) (w : c.World)
      → service_key pdis ≡ k
      → Preserves IsFinalized (reconcile_with p c pdis cfg) w
  unfolding reconcile_with
  reconcile_with-IsFinalized pdis cfg w key = by_build (build p.parse_quantity pdis cfg)
    where
      by_build :
          (built : Option (RoleBasedGroup p.Quantity))
          → Preserves IsFinalized
              (or_panic built >>= λ desired.
                (apply_rbg p c pdis desired >>= λ _. sync_status p c pdis))
              w
      by_build none h = h
      by_build (some desired) h =
          Preserves->>= IsFinalized (apply_rbg p c pdis desired) _ w
            (apply_rbg-IsFinalized pdis desired w)
            (λ _. sync_status-IsFinalized pdis (apply_rbg p c pdis desired w).1 key) h

  reconcile_on-IsFinalized :
      (merged : Result MergedConfig) (pdis : PdInferenceService) (w : c.World)
      → service_key pdis ≡ k
      → Preserves IsFinalized (reconcile_on p c merged pdis) w
  unfolding set_failed_status
  reconcile_on-IsFinalized (ok cfg) pdis w key = reconcile_with-IsFinalized pdis cfg w key
  reconcile_on-IsFinalized (err e) pdis w key = write_status-IsFinalized _ _ w key

module _ (p : Platform) (c : Client p) (laws : ClientLaws p c) (finalizers : FinalizerLaws p)
    (j : NamespacedName) where
  -- Either the group under `j` is as before or the finalizer of the service under `k` is stored.
  abbrev Ordered : NamespacedName → c.World → c.World → Type 0
  Ordered k w w' = (laws.stored_group j w' ≡ laws.stored_group j w) ⊎ IsFinalized p c laws k w'

  reconcile_live-Ordered :
      (pdis : PdInferenceService) (w : c.World)
      → is_zero pdis.metadata.deletion_timestamp ≡ true
      → laws.stored_service (service_key pdis) w ≡ some pdis
      → Ordered (service_key pdis) w (reconcile_live p c pdis w).1
  unfolding reconcile_live
  reconcile_live-Ordered pdis w live stored = by_outcome (ensure_finalizer p c pdis w).0 refl
    where
      w1 : c.World
      w1 = (ensure_finalizer p c pdis w).1

      rest : PdInferenceService → Action c.World CtrlResult
      rest ensured w2 =
          reconcile_on p c (resolve p.quote (λ k. c.get_profile k w2) ensured) ensured w2

      by_outcome :
          (o : Outcome PdInferenceService)
          → (ensure_finalizer p c pdis w).0 ≡ o
          → Ordered (service_key pdis) w (continue o rest w1).1
      by_outcome (returned (err e)) failed = inl (ensure_finalizer-KeepsGroup p c laws j pdis w)
      by_outcome panicked failed = inl (ensure_finalizer-KeepsGroup p c laws j pdis w)
      by_outcome (returned (ok ensured)) started =
          let (_, key, held) =
            ensure_finalizer-stores p c laws pdis ensured w live stored started in
          let has =
            ensure_finalizer-finalized p c laws finalizers pdis ensured w live stored started in
          inr (
            reconcile_on-IsFinalized p c laws (service_key pdis) _ ensured w1 key
              (ensured, ap (λ k. laws.stored_service k w1) (sym key) ∙ held, has))

  reconcile_fetched-Ordered :
      (answer : Result PdInferenceService) (request : NamespacedName) (w : c.World)
      → c.get_service request w ≡ answer
      → IsFresh p c laws request w
      → Ordered request w (reconcile_fetched p c answer w).1
  reconcile_fetched-Ordered (err e) request w fetched fresh = elim (Bool-cases (is_not_found e)) [
    | inl missing ↦ rw missing (inl refl)
    | inr other ↦ rw other (inl refl)
  ]
  reconcile_fetched-Ordered (ok pdis) request w fetched fresh =
      elim (Bool-cases (is_zero pdis.metadata.deletion_timestamp)) [
        | inl live ↦
            let key = laws.get_service_key request w pdis fetched in
            rw live (
              subst (λ k. Ordered k w (reconcile_live p c pdis w).1) key
                (reconcile_live-Ordered pdis w live
                  (ap (λ k. laws.stored_service k w) key ∙ fresh pdis fetched)))
        | inr deleted ↦ rw deleted (inl (handle_deletion-KeepsGroup p c laws j pdis w))
      ]

-- The finalizer comes first: if the read of a service is up to date and its reconciliation changes
-- any group, then the service is stored with the finalizer, however the reconciliation ends.
pub reconcile-IsFinalized :
    (p : Platform) (c : Client p) (laws : ClientLaws p c) (finalizers : FinalizerLaws p)
    (request j : NamespacedName) (w : c.World)
    → IsFresh p c laws request w
    → laws.stored_group j (reconcile p c request w).1 ≢ laws.stored_group j w
    → IsFinalized p c laws request (reconcile p c request w).1
unfolding reconcile
reconcile-IsFinalized p c laws finalizers request j w fresh changed =
    elim (reconcile_fetched-Ordered p c laws finalizers j (c.get_service request w) request w refl
      fresh) [ inl same ↦ absurd (changed same) | inr finalized ↦ finalized ]
