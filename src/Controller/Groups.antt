-- ===== src/Controller/Groups.antt =====
-- Which RoleBasedGroups a reconciliation may touch.
use mathlib.Core.Bool.{true≢false}
use pd_manager.Common.{
  ◌≡◌, ◌≢◌, inl, inr, true, Option, none, some, Result, ok, err, is_not_found, ok-injective, refl,
  sym, ap, ◌∙◌, Bool-cases,
}
use pd_manager.Platform.{Platform}
use pd_manager.Cluster.{Client, ClientLaws, service_key, group_key}
use pd_manager.Api.{NamespacedName, PdInferenceService, is_zero}
use pd_manager.Config.{MergedConfig}
use pd_manager.Translator.{build}
use pd_manager.Translator.Shape.{build-IsGroupOf}
use pd_manager.Workload.{RoleBasedGroup}
use pd_manager.Controller.Meaning.{IsDeleted, is_zero_iff}
use pd_manager.Controller.Action.{Action, Keeps, Keeps->>=, pure, write, or_panic, ◌>>=◌}
use pd_manager.Controller.Finalizers.{ensure_finalizer-key}
use pd_manager.Controller.Reconcile.{
  finalizer, CtrlResult, ensure_finalizer, handle_deletion, apply_on, apply_rbg, set_failed_status,
  sync_on, sync_status, reconcile_with, reconcile_on, reconcile_live, reconcile_fetched, reconcile,
  with_finalizers, without_finalizers,
}

module _ (p : Platform) (c : Client p) (laws : ClientLaws p c) (j : NamespacedName) where
  -- The group under the key `j` stays as it was.
  abbrev KeepsGroup : {A : Type 0} → Action c.World A → c.World → Type 0
  KeepsGroup = Keeps (laws.stored_group j)

  pub ensure_finalizer-KeepsGroup :
      (pdis : PdInferenceService) (w : c.World) → KeepsGroup (ensure_finalizer p c pdis) w
  unfolding ensure_finalizer
  ensure_finalizer-KeepsGroup pdis w =
      elim (Bool-cases (p.contains_finalizer finalizer pdis.metadata.finalizers)) [
        | inl present ↦ rw present refl
        | inr absent ↦ rw absent (laws.update_service_groups (with_finalizers p c pdis) w j)
      ]

  pub handle_deletion-KeepsGroup :
      (pdis : PdInferenceService) (w : c.World) → KeepsGroup (handle_deletion p c pdis) w
  unfolding handle_deletion
  handle_deletion-KeepsGroup pdis w =
      elim (Bool-cases (p.contains_finalizer finalizer pdis.metadata.finalizers)) [
        | inl present ↦ rw present (
            Keeps->>= (laws.stored_group j) (write (c.update_service (without_finalizers p c pdis)))
              _ w (laws.update_service_groups (without_finalizers p c pdis) w j) (λ _ _. refl))
        | inr absent ↦ rw absent refl
      ]

  write_status-KeepsGroup :
      (pdis : PdInferenceService) (r : CtrlResult) (w : c.World)
      → KeepsGroup (write (c.update_status pdis) >>= λ _. pure r) w
  write_status-KeepsGroup pdis r w =
      Keeps->>= (laws.stored_group j) (write (c.update_status pdis)) (λ _. pure r) w
        (laws.update_status_groups pdis w j) (λ _ _. refl)

  sync_on-KeepsGroup :
      (answer : Result (RoleBasedGroup p.Quantity)) (pdis : PdInferenceService) (w : c.World)
      → KeepsGroup (sync_on p c answer pdis) w
  sync_on-KeepsGroup (ok rbg) pdis w = write_status-KeepsGroup _ _ w
  sync_on-KeepsGroup (err e) pdis w = elim (Bool-cases (is_not_found e)) [
    | inl missing ↦ rw missing (write_status-KeepsGroup _ _ w)
    | inr other ↦ rw other refl
  ]

  apply_on-KeepsGroup :
      (answer : Result (RoleBasedGroup p.Quantity)) (desired : RoleBasedGroup p.Quantity)
      (w : c.World)
      → j ≢ group_key desired
      → ((existing : RoleBasedGroup p.Quantity) → answer ≡ ok existing → j ≢ group_key existing)
      → KeepsGroup (apply_on p c answer desired) w
  apply_on-KeepsGroup (ok existing) desired w h other =
      laws.update_group_others (record existing { roles = desired.roles }) w j (other existing refl)
  apply_on-KeepsGroup (err e) desired w h other = elim (Bool-cases (is_not_found e)) [
    | inl missing ↦ rw missing (laws.create_group_others desired w j h)
    | inr failed ↦ rw failed refl
  ]

  apply_rbg-KeepsGroup :
      (pdis : PdInferenceService) (desired : RoleBasedGroup p.Quantity) (w : c.World)
      → j ≢ service_key pdis
      → group_key desired ≡ service_key pdis
      → KeepsGroup (apply_rbg p c pdis desired) w
  unfolding apply_rbg
  apply_rbg-KeepsGroup pdis desired w h key =
      apply_on-KeepsGroup (c.get_group (service_key pdis) w) desired w (λ e. h (e ∙ key))
        (λ existing found e. h (e ∙ laws.get_group_key (service_key pdis) w existing found))

  sync_status-KeepsGroup :
      (pdis : PdInferenceService) (w : c.World) → KeepsGroup (sync_status p c pdis) w
  unfolding sync_status
  sync_status-KeepsGroup pdis w = sync_on-KeepsGroup (c.get_group (service_key pdis) w) pdis w

  reconcile_with-KeepsGroup :
      (pdis : PdInferenceService) (cfg : MergedConfig) (w : c.World)
      → j ≢ service_key pdis
      → KeepsGroup (reconcile_with p c pdis cfg) w
  unfolding reconcile_with
  reconcile_with-KeepsGroup pdis cfg w h = by_build (build p.parse_quantity pdis cfg) refl
    where
      by_build :
          (built : Option (RoleBasedGroup p.Quantity))
          → build p.parse_quantity pdis cfg ≡ built
          → KeepsGroup
              (or_panic built >>= λ desired.
                (apply_rbg p c pdis desired >>= λ _. sync_status p c pdis))
              w
      by_build none e = refl
      by_build (some desired) e =
          let group = build-IsGroupOf p.parse_quantity pdis cfg desired e in
          Keeps->>= (laws.stored_group j) (apply_rbg p c pdis desired) _ w
            (apply_rbg-KeepsGroup pdis desired w h
              (λ i. record { namespace = group.namespace i; name = group.name i }))
            (λ _ _. sync_status-KeepsGroup pdis _)

  reconcile_on-KeepsGroup :
      (merged : Result MergedConfig) (pdis : PdInferenceService) (w : c.World)
      → j ≢ service_key pdis
      → KeepsGroup (reconcile_on p c merged pdis) w
  unfolding set_failed_status
  reconcile_on-KeepsGroup (ok cfg) pdis w h = reconcile_with-KeepsGroup pdis cfg w h
  reconcile_on-KeepsGroup (err e) pdis w h = write_status-KeepsGroup _ _ w

module _ (p : Platform) (c : Client p) (laws : ClientLaws p c) (j : NamespacedName) where
  reconcile_live-KeepsGroup :
      (pdis : PdInferenceService) (w : c.World)
      → j ≢ service_key pdis
      → KeepsGroup p c laws j (reconcile_live p c pdis) w
  unfolding reconcile_live
  reconcile_live-KeepsGroup pdis w h =
      Keeps->>= (laws.stored_group j) (ensure_finalizer p c pdis) _ w
        (ensure_finalizer-KeepsGroup p c laws j pdis w)
        (λ pdis' done.
          reconcile_on-KeepsGroup p c laws j _ pdis' _
            (λ e. h (e ∙ ensure_finalizer-key p c laws pdis pdis' w done)))

  reconcile_fetched-KeepsGroup :
      (answer : Result PdInferenceService) (request : NamespacedName) (w : c.World)
      → c.get_service request w ≡ answer
      → ((pdis : PdInferenceService)
          → answer ≡ ok pdis
          → is_zero pdis.metadata.deletion_timestamp ≡ true
          → j ≢ request)
      → KeepsGroup p c laws j (reconcile_fetched p c answer) w
  reconcile_fetched-KeepsGroup (err e) request w fetched h = elim (Bool-cases (is_not_found e)) [
    | inl missing ↦ rw missing refl
    | inr other ↦ rw other refl
  ]
  reconcile_fetched-KeepsGroup (ok pdis) request w fetched h =
      elim (Bool-cases (is_zero pdis.metadata.deletion_timestamp)) [
        | inl live ↦
            let key = laws.get_service_key request w pdis fetched in
            rw live (reconcile_live-KeepsGroup pdis w (λ e. h pdis refl live (e ∙ key)))
        | inr deleted ↦ rw deleted (handle_deletion-KeepsGroup p c laws j pdis w)
      ]

-- A reconciliation of one request touches no other group: whatever it returns, and also if it fails
-- or panics half-way, the group under any other key is stored as before.
pub reconcile-others :
    (p : Platform) (c : Client p) (laws : ClientLaws p c) (request j : NamespacedName) (w : c.World)
    → j ≢ request
    → laws.stored_group j (reconcile p c request w).1 ≡ laws.stored_group j w
unfolding reconcile
reconcile-others p c laws request j w h =
    reconcile_fetched-KeepsGroup p c laws j (c.get_service request w) request w refl (λ _ _ _. h)

-- Once a service is marked for deletion, its reconciliation touches no group at all, not even its
-- own.
pub reconcile_deleted :
    (p : Platform) (c : Client p) (laws : ClientLaws p c) (request j : NamespacedName) (w : c.World)
    (pdis : PdInferenceService)
    → c.get_service request w ≡ ok pdis
    → IsDeleted pdis
    → laws.stored_group j (reconcile p c request w).1 ≡ laws.stored_group j w
unfolding reconcile
reconcile_deleted p c laws request j w pdis fetched deleted =
    reconcile_fetched-KeepsGroup p c laws j (c.get_service request w) request w refl
      (λ other found live.
        let same : other ≡ pdis = ok-injective _ _ (sym found ∙ fetched) in
        absurd (
          true≢false (
            sym live
            ∙ ap (λ s. is_zero s.metadata.deletion_timestamp) same
            ∙ (is_zero_iff pdis).1 deleted)))
