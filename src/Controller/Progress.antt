-- ===== src/Controller/Progress.antt =====
-- How a reconciliation ends, where the server answers.
use mathlib.Core.Option.{none-ne-some}
use pd_manager.Common.{
  ◌≡◌, ◌⊎◌, inl, inr, true, String, Option, some, none, Result, ok, err, Outcome, returned,
  panicked, refl, sym, ap, ◌∙◌, Option-cases, Bool-cases,
}
use pd_manager.Common.Panics.{Succeeds}
use pd_manager.Platform.{Platform}
use pd_manager.Cluster.{Client, ClientLaws, IsFresh, ServerAnswers, service_key, group_key}
use pd_manager.Api.{NamespacedName, PdInferenceService, is_zero}
use pd_manager.Config.{MergedConfig, resolve}
use pd_manager.Translator.{build}
use pd_manager.Translator.Totality.{QuantitiesParse, build-Succeeds_iff}
use pd_manager.Translator.Shape.{build-IsGroupOf}
use pd_manager.Workload.{RoleBasedGroup}
use pd_manager.Controller.Finalizers.{ensure_finalizer-stores}
use pd_manager.Controller.Applied.{apply_on-services}
use pd_manager.Controller.Reconcile.{
  finalizer, with_finalizers, CtrlResult, poll_again, no_requeue, failed_status, ensure_finalizer,
  apply_rbg, set_failed_status, sync_from, sync_status, reconcile_with, reconcile_on,
  reconcile_live, reconcile, synced_status,
}

module _ (p : Platform) (c : Client p) (laws : ClientLaws p c)
    (answers : ServerAnswers p c laws) where
  ensure_finalizer_returns :
      (pdis : PdInferenceService) (w : c.World)
      → laws.stored_service (service_key pdis) w ≡ some pdis
      → (ensured : PdInferenceService) × ((ensure_finalizer p c pdis w).0 ≡ returned (ok ensured))
  unfolding ensure_finalizer
  ensure_finalizer_returns pdis w stored =
      elim (Bool-cases (p.contains_finalizer finalizer pdis.metadata.finalizers)) [
        | inl present ↦ rw present (pdis, refl)
        | inr absent ↦
            let (s', accepted) =
              answers.service_accepted (with_finalizers p c pdis) pdis w stored in
            rw absent (s', ap returned accepted)
      ]

  apply_rbg_accepted :
      (pdis : PdInferenceService) (desired : RoleBasedGroup p.Quantity) (w : c.World)
      → group_key desired ≡ service_key pdis
      → ((apply_rbg p c pdis desired w).0 ≡ returned (ok tt))
        × (laws.stored_service (service_key pdis) (apply_rbg p c pdis desired w).1
            ≡ laws.stored_service (service_key pdis) w)
  unfolding apply_rbg
  apply_rbg_accepted pdis desired w key = (
    elim (answers.group_answers (service_key pdis) w) [
      | inl (g, found) ↦
          let same = laws.get_group_key (service_key pdis) w g found in
          rw found (ap returned (answers.update_accepted _ g w (rw same found)))
      | inr (e, lost, missing) ↦
          rw lost
            (rw missing (ap returned (answers.create_accepted desired e w (rw key lost) missing)))
    ],
    apply_on-services p c laws (c.get_group (service_key pdis) w) desired (service_key pdis) w,
  )

  sync_from_returns :
      (rbg : Option (RoleBasedGroup p.Quantity)) (pdis old : PdInferenceService) (w : c.World)
      → laws.stored_service (service_key pdis) w ≡ some old
      → (sync_from p c rbg pdis w).0 ≡ returned (ok poll_again)
  sync_from_returns rbg pdis old w stored =
      let (s', accepted) =
        answers.status_accepted (synced_status p c (c.now w) rbg pdis) old w stored in
      rw accepted refl

  sync_status_returns :
      (pdis old : PdInferenceService) (w : c.World)
      → laws.stored_service (service_key pdis) w ≡ some old
      → (sync_status p c pdis w).0 ≡ returned (ok poll_again)
  unfolding sync_status
  sync_status_returns pdis old w stored = elim (answers.group_answers (service_key pdis) w) [
    | inl (g, found) ↦ rw found (sync_from_returns (some g) pdis old w stored)
    | inr (e, lost, missing) ↦ rw lost (rw missing (sync_from_returns none pdis old w stored))
  ]

  reconcile_with_returns :
      (pdis old : PdInferenceService) (cfg : MergedConfig) (w : c.World)
      → laws.stored_service (service_key pdis) w ≡ some old
      → Succeeds (build p.parse_quantity pdis cfg)
      → (reconcile_with p c pdis cfg w).0 ≡ returned (ok poll_again)
  unfolding reconcile_with
  reconcile_with_returns pdis old cfg w stored (desired, built) =
      let shape = build-IsGroupOf p.parse_quantity pdis cfg desired built in
      let (applied, kept) =
        apply_rbg_accepted pdis desired w
          (λ i. record { namespace = shape.namespace i; name = shape.name i }) in
      rw built (rw applied (sync_status_returns pdis old _ (kept ∙ stored)))

  set_failed_status_returns :
      (pdis old : PdInferenceService) (reason message : String) (w : c.World)
      → laws.stored_service (service_key pdis) w ≡ some old
      → (set_failed_status p c pdis reason message w).0 ≡ returned (ok no_requeue)
  unfolding set_failed_status
  set_failed_status_returns pdis old reason message w stored =
      let (s', accepted) =
        answers.status_accepted (failed_status p c pdis reason message) old w stored in
      rw accepted refl

-- How the reconciliation of a live service ends, given the configuration that is resolved for it:
-- it asks to be called again if the quantities parse, panics if one does not, and stops if there
-- is no configuration.
abbrev pub EndsWith :
    (p : Platform) → PdInferenceService → Result MergedConfig → Outcome CtrlResult → Type 0
EndsWith p pdis (ok cfg) end =
    (QuantitiesParse p.parse_quantity pdis × (end ≡ returned (ok poll_again)))
    ⊎ ((¬ QuantitiesParse p.parse_quantity pdis) × (end ≡ panicked))
EndsWith p pdis (err e) end = end ≡ returned (ok no_requeue)

module _ (p : Platform) (c : Client p) (laws : ClientLaws p c)
    (answers : ServerAnswers p c laws) where
  reconcile_with_panics :
      (pdis : PdInferenceService) (cfg : MergedConfig) (w : c.World)
      → build p.parse_quantity pdis cfg ≡ none
      → (reconcile_with p c pdis cfg w).0 ≡ panicked
  unfolding reconcile_with
  reconcile_with_panics pdis cfg w lost = rw lost refl

  reconcile_on-EndsWith :
      (merged : Result MergedConfig) (pdis : PdInferenceService) (w : c.World)
      → laws.stored_service (service_key pdis) w ≡ some pdis
      → EndsWith p pdis merged (reconcile_on p c merged pdis w).0
  reconcile_on-EndsWith (err e) pdis w stored =
      set_failed_status_returns p c laws answers pdis pdis "ProfileResolveFailed" _ w stored
  reconcile_on-EndsWith (ok cfg) pdis w stored =
      let parses = build-Succeeds_iff p.parse_quantity pdis cfg in
      elim (Option-cases (build p.parse_quantity pdis cfg)) [
        | inl lost ↦
            inr (
              λ h. none-ne-some _ (sym lost ∙ (parses.1 h).1),
              reconcile_with_panics pdis cfg w lost,
            )
        | inr built ↦
            inl
              (parses.0 built, reconcile_with_returns p c laws answers pdis pdis cfg w stored built)
      ]

-- Where the server answers and the read of a live service is up to date, its reconciliation always
-- ends. Let `ensured` be the
-- service with its finalizer and take the configuration that is resolved for it then: if there is
-- one, the reconciliation asks to be called again in ten seconds where every quantity of the
-- service parses, and panics where one does not; if there is none, it returns with no error and no
-- requeue.
pub reconcile-EndsWith :
    (p : Platform) (c : Client p) (laws : ClientLaws p c) (answers : ServerAnswers p c laws)
    (request : NamespacedName) (pdis : PdInferenceService) (w : c.World)
    → c.get_service request w ≡ ok pdis
    → IsFresh p c laws request w
    → is_zero pdis.metadata.deletion_timestamp ≡ true
    → (ensured : PdInferenceService) × ((ensure_finalizer p c pdis w).0 ≡ returned (ok ensured))
      × EndsWith p ensured
          (resolve p.quote (λ k. c.get_profile k (ensure_finalizer p c pdis w).1) ensured)
          (reconcile p c request w).0
unfolding reconcile reconcile_live
reconcile-EndsWith p c laws answers request pdis w fetched fresh live =
    let key = laws.get_service_key request w pdis fetched in
    let stored = ap (λ k. laws.stored_service k w) key ∙ fresh pdis fetched in
    let (ensured, started) = ensure_finalizer_returns p c laws answers pdis w stored in
    let (_, _, held) = ensure_finalizer-stores p c laws pdis ensured w live stored started in
    (
      ensured,
      started,
      rw (fetched, live, started) (reconcile_on-EndsWith p c laws answers _ ensured _ held),
    )
