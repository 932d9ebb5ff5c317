-- ===== src/Controller/Convergence.antt =====
-- What a reconciliation that runs to its end leaves in the cluster.
use mathlib.Core.Path.{subst}
use pd_manager.Common.{
  ◌≡◌, String, Option, true, some, Result, ok, err, returned, returned-injective, refl, sym, ap,
  ◌∙◌,
}
use pd_manager.Platform.{Platform, FinalizerLaws}
use pd_manager.Cluster.{Client, ClientLaws, IsFresh, service_key}
use pd_manager.Api.{NamespacedName, PdInferenceService, is_zero}
use pd_manager.Config.{MergedConfig, resolve}
use pd_manager.Translator.{build}
use pd_manager.Workload.{RoleBasedGroup}
use pd_manager.Controller.Action.{>>=-eq-returned, write}
use pd_manager.Controller.Finalizers.{ensure_finalizer-stores, ensure_finalizer-finalized}
use pd_manager.Controller.Reconcile.{
  finalizer, CtrlResult, poll_again, no_requeue, failed_status, ensure_finalizer, set_failed_status,
  apply_rbg, reconcile_on, reconcile_live, reconcile, synced_status,
}
use pd_manager.Controller.Applied.{IsSeen, reconcile_with-stores}

module _ (p : Platform) (c : Client p) (laws : ClientLaws p c) where
  set_failed_status-no_requeue :
      (pdis : PdInferenceService) (reason message : String) (r : CtrlResult) (w w' : c.World)
      → set_failed_status p c pdis reason message w ≡ (returned (ok r), w')
      → r ≡ no_requeue
  unfolding set_failed_status
  set_failed_status-no_requeue pdis reason message r w w' done =
      let (_, _, end) =
        >>=-eq-returned (write (c.update_status (failed_status p c pdis reason message))) _ w
          done in
      returned-injective _ _ (sym (ap (λ t. t.0) end))

-- What the cluster holds after a reconciliation of `request` from `w` to `w'` that ran to its end:
-- the service with the finalizer and the synced status, and the group with the translated roles.
pub record IsConverged (p : Platform) (c : Client p) (laws : ClientLaws p c)
    (request : NamespacedName) (fetched : PdInferenceService) (w w' : c.World) : Type 0 where
  pub ensured : PdInferenceService
  pub started : (ensure_finalizer p c fetched w).0 ≡ returned (ok ensured)
  pub finalized : p.contains_finalizer finalizer ensured.metadata.finalizers ≡ true
  pub cfg : MergedConfig
  pub merged :
      resolve p.quote (λ k. c.get_profile k (ensure_finalizer p c fetched w).1) ensured ≡ ok cfg
  pub desired : RoleBasedGroup p.Quantity
  pub built : build p.parse_quantity ensured cfg ≡ some desired
  pub group : RoleBasedGroup p.Quantity
  -- The state in which the group has been applied and the status is not yet written.
  pub applied_at : c.World
  pub is_applied_at :
      applied_at ≡ (apply_rbg p c ensured desired (ensure_finalizer p c fetched w).1).1
  pub applied_group : laws.stored_group request applied_at ≡ some group
  pub stored_group : laws.stored_group request w' ≡ some group
  pub roles : group.roles ≡ desired.roles
  -- The group as it reads there, from the cache.
  pub seen : Option (RoleBasedGroup p.Quantity)
  pub is_seen : IsSeen (c.get_group request applied_at) seen
  pub stored_service :
      laws.stored_service request w' ≡ some (synced_status p c (c.now applied_at) seen ensured)

module _ (p : Platform) (c : Client p) (laws : ClientLaws p c) (finalizers : FinalizerLaws p) where
  reconcile_live-IsConverged :
      (pdis : PdInferenceService) (w w' : c.World)
      → is_zero pdis.metadata.deletion_timestamp ≡ true
      → laws.stored_service (service_key pdis) w ≡ some pdis
      → reconcile_live p c pdis w ≡ (returned (ok poll_again), w')
      → IsConverged p c laws (service_key pdis) pdis w w'
  unfolding reconcile_live
  reconcile_live-IsConverged pdis w w' live stored done =
      let (ensured, started, rest) = >>=-eq-returned (ensure_finalizer p c pdis) _ w done in
      let w1 = (ensure_finalizer p c pdis w).1 in
      let (_, key, held) = ensure_finalizer-stores p c laws pdis ensured w live stored started in
      let finalized =
        ensure_finalizer-finalized p c laws finalizers pdis ensured w live stored started in
      by_merge ensured started held finalized key
        (resolve p.quote (λ k. c.get_profile k w1) ensured) refl rest
    where
      w2 : c.World
      w2 = (ensure_finalizer p c pdis w).1

      by_merge :
          (ensured : PdInferenceService)
          → (ensure_finalizer p c pdis w).0 ≡ returned (ok ensured)
          → laws.stored_service (service_key ensured) w2 ≡ some ensured
          → p.contains_finalizer finalizer ensured.metadata.finalizers ≡ true
          → service_key ensured ≡ service_key pdis
          → (m : Result MergedConfig) → resolve p.quote (λ k. c.get_profile k w2) ensured ≡ m
          → reconcile_on p c m ensured w2 ≡ (returned (ok poll_again), w')
          → IsConverged p c laws (service_key pdis) pdis w w'
      by_merge ensured started held finalized key (err e) merged rest = absurd (
          cc (
            ap (λ r. r.requeue_after)
              (set_failed_status-no_requeue p c laws ensured _ _ poll_again w2 w' rest)))
      by_merge ensured started held finalized key (ok cfg) merged rest =
          let end = reconcile_with-stores p c laws ensured cfg poll_again w2 w' held rest in
          let w3 = (apply_rbg p c ensured end.desired w2).1 in
          record {
            ensured = ensured;
            started = started;
            finalized = finalized;
            cfg = cfg;
            merged = merged;
            desired = end.desired;
            built = end.built;
            group = end.group;
            applied_at = w3;
            is_applied_at = refl;
            applied_group = ap (λ k. laws.stored_group k w3) (sym key) ∙ end.applied;
            stored_group = ap (λ k. laws.stored_group k w') (sym key) ∙ end.kept;
            roles = end.roles;
            seen = end.seen;
            is_seen = subst (λ k. IsSeen (c.get_group k w3) end.seen) key end.is_seen;
            stored_service = ap (λ k. laws.stored_service k w') (sym key) ∙ end.synced;
          }

-- If the read of a live service is up to date and its reconciliation ends by asking to be called
-- again in ten seconds, then the group under its key is stored with the roles translated from the
-- service and its merged configuration, and the service is stored with the finalizer and with the
-- status that `syncStatus` computes at the time, and from the group, that it reads once the group is
-- applied. That read may be out of date, and then be "not found" for a group that is stored.
pub reconcile-IsConverged :
    (p : Platform) (c : Client p) (laws : ClientLaws p c) (finalizers : FinalizerLaws p)
    (request : NamespacedName) (pdis : PdInferenceService) (w w' : c.World)
    → c.get_service request w ≡ ok pdis
    → IsFresh p c laws request w
    → is_zero pdis.metadata.deletion_timestamp ≡ true
    → reconcile p c request w ≡ (returned (ok poll_again), w')
    → IsConverged p c laws request pdis w w'
unfolding reconcile
reconcile-IsConverged p c laws finalizers request pdis w w' fetched fresh live done =
    let key = laws.get_service_key request w pdis fetched in
    let stored = ap (λ k. laws.stored_service k w) key ∙ fresh pdis fetched in
    let start : reconcile_live p c pdis w ≡ (returned (ok poll_again), w') =
      rw (fetched, live) at done in
    subst (λ k. IsConverged p c laws k pdis w w') key
      (reconcile_live-IsConverged p c laws finalizers pdis w w' live stored start)
