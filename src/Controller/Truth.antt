-- ===== src/Controller/Truth.antt =====
-- That the status which a reconciliation leaves describes the group which it leaves.
use pd_manager.Common.{
  ◌≡◌, ◌↔◌, true, Option, none, some, List, [], ◌∷◌, map, All2, ok, returned, refl, sym, ◌∙◌,
}
use pd_manager.Platform.{Platform, FinalizerLaws}
use pd_manager.Cluster.{Client, ClientLaws, IsFresh}
use pd_manager.Api.{
  Time, NamespacedName, Condition, condition_true, running, RoleStatus, PdInferenceService,
  PdInferenceServiceStatus, is_zero,
}
use pd_manager.Workload.{RoleBasedGroup, RbgRoleStatus}
use pd_manager.Controller.Status.{compute_phase, build_role_statuses}
use pd_manager.Controller.Reconcile.{poll_again, reconcile, synced_status}
use pd_manager.Controller.Conditions.{set_ready_condition}
use pd_manager.Controller.Meaning.{PhaseMeans}
use pd_manager.Controller.Phases.{compute_phase_iff}
use pd_manager.Controller.Readiness.{
  find_ready, set_ready_condition-IsReadyUpdate, set_ready_condition-true_iff,
}
use pd_manager.Controller.Convergence.{IsConverged, reconcile-IsConverged}

abbrev IsCountOf : RbgRoleStatus → RoleStatus → Type 0
IsCountOf rs status =
    (status.name ≡ rs.name) × (status.ready ≡ rs.ready_replicas) × (status.total ≡ rs.replicas)

-- The counts of a status are those of the group, or those of the status before where there is none.
abbrev Counts :
    {Q : Type 0} → Option (RoleBasedGroup Q) → List RoleStatus → List RoleStatus → Type 0
Counts none before after = after ≡ before
Counts (some g) before after = All2 IsCountOf g.status.role_statuses after

-- The status that a reconciliation of `fetched` from `w` to `w'` stores says what is so of the group
-- as it read, `seen`, once it was applied: the phase means what it says at the time of that read, the
-- counts are those of that group, and the Ready condition is "True" in the phase Running alone.
-- Between that read and the end the stored group does not change.
pub record IsTruthful (p : Platform) (c : Client p) (laws : ClientLaws p c)
    (request : NamespacedName) (fetched : PdInferenceService) (w w' : c.World) : Type 0 where
  pub converged : IsConverged p c laws request fetched w w'
  pub service : PdInferenceService
  pub stored_service : laws.stored_service request w' ≡ some service
  pub unchanged : laws.stored_group request w' ≡ laws.stored_group request converged.applied_at
  pub phase : PhaseMeans (c.now converged.applied_at) converged.seen service service.status.phase
  pub counts :
      Counts converged.seen converged.ensured.status.role_statuses service.status.role_statuses
  pub ready : Condition
  pub ready_condition : find_ready service.status.conditions ≡ some ready
  pub is_ready : (ready.status ≡ condition_true) ↔ (service.status.phase ≡ running)

build_role_statuses-IsCountOf :
    {Q : Type 0} (g : RoleBasedGroup Q)
    → All2 IsCountOf g.status.role_statuses (build_role_statuses g)
unfolding build_role_statuses
build_role_statuses-IsCountOf g = each g.status.role_statuses
  where
    each :
        (statuses : List RbgRoleStatus)
        → All2 IsCountOf statuses (
            map
              (λ rs. record { name = rs.name; ready = rs.ready_replicas; total = rs.replicas })
              statuses)
    each [] = tt
    each (rs ∷ statuses) = ((refl, refl, refl), each statuses)

-- Neither the phase nor the role statuses are touched by `setReadyCondition`, and the phase does not
-- read the status.
synced_status-phase :
    (p : Platform) (c : Client p) (time : Time) (seen : Option (RoleBasedGroup p.Quantity))
    (pdis : PdInferenceService)
    → compute_phase time seen (synced_status p c time seen pdis)
      ≡ (synced_status p c time seen pdis).status.phase
unfolding compute_phase set_ready_condition
synced_status-phase p c time none pdis = refl
synced_status-phase p c time (some g) pdis = refl

synced_status-Counts :
    (p : Platform) (c : Client p) (time : Time) (seen : Option (RoleBasedGroup p.Quantity))
    (pdis : PdInferenceService)
    → Counts seen pdis.status.role_statuses (synced_status p c time seen pdis).status.role_statuses
unfolding set_ready_condition
synced_status-Counts p c time none pdis = refl
synced_status-Counts p c time (some g) pdis = build_role_statuses-IsCountOf g

-- The Ready condition that is written, and what it says.
synced_status-ready :
    (p : Platform) (c : Client p) (time : Time) (seen : Option (RoleBasedGroup p.Quantity))
    (pdis : PdInferenceService)
    → let status = (synced_status p c time seen pdis).status in
      (ready : Condition) × (find_ready status.conditions ≡ some ready)
      × ((ready.status ≡ condition_true) ↔ (status.phase ≡ running))
unfolding set_ready_condition
synced_status-ready p c time seen pdis = by_group seen
  where
    by_status :
        (before : PdInferenceServiceStatus)
        → (ready : Condition) × (find_ready (set_ready_condition time before).conditions
            ≡ some ready)
          × ((ready.status ≡ condition_true) ↔ (before.phase ≡ running))
    by_status before =
        let update = set_ready_condition-IsReadyUpdate time before in
        (
          update.ready,
          update.found,
          set_ready_condition-true_iff time before update.ready update.found,
        )

    by_group :
        (seen : Option (RoleBasedGroup p.Quantity))
        → let status = (synced_status p c time seen pdis).status in
          (ready : Condition) × (find_ready status.conditions ≡ some ready)
          × ((ready.status ≡ condition_true) ↔ (status.phase ≡ running))
    by_group none = by_status (record (pdis.status) { phase = compute_phase time none pdis })
    by_group (some g) = by_status (record (pdis.status) {
      phase = compute_phase time (some g) pdis;
      role_statuses = build_role_statuses g;
    })

-- If the read of a live service is up to date and its reconciliation ends by asking to be called
-- again, the status that it stores describes the group as that read once it was applied, out of date
-- or not: the phase has its meaning of that group at the time of the read, or of no group where the
-- read was "not found"; the role statuses are the counts of that group, or the old ones; and the
-- Ready condition is "True" exactly in the phase Running. After that read the stored group is not
-- changed any more.
pub reconcile-IsTruthful :
    (p : Platform) (c : Client p) (laws : ClientLaws p c) (finalizers : FinalizerLaws p)
    (request : NamespacedName) (pdis : PdInferenceService) (w w' : c.World)
    → c.get_service request w ≡ ok pdis
    → IsFresh p c laws request w
    → is_zero pdis.metadata.deletion_timestamp ≡ true
    → reconcile p c request w ≡ (returned (ok poll_again), w')
    → IsTruthful p c laws request pdis w w'
reconcile-IsTruthful p c laws finalizers request pdis w w' fetched fresh live done =
    let end = reconcile-IsConverged p c laws finalizers request pdis w w' fetched fresh live done in
    let time = c.now end.applied_at in
    let service = synced_status p c time end.seen end.ensured in
    let (ready, found, is_ready) = synced_status-ready p c time end.seen end.ensured in
    record {
      converged = end;
      service = service;
      stored_service = end.stored_service;
      unchanged = end.stored_group ∙ sym end.applied_group;
      phase =
          (compute_phase_iff time end.seen service service.status.phase).0
            (synced_status-phase p c time end.seen end.ensured);
      counts = synced_status-Counts p c time end.seen end.ensured;
      ready = ready;
      ready_condition = found;
      is_ready = is_ready;
    }
