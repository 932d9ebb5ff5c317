-- ===== src/Controller/Profiles.antt =====
-- No call of the reconciler changes a profile.
use pd_manager.Common.{
  inl, inr, Option, none, some, Result, ok, err, is_not_found, refl, Bool-cases,
}
use pd_manager.Platform.{Platform}
use pd_manager.Cluster.{Client, KeepsProfiles, service_key}
use pd_manager.Api.{NamespacedName, PdInferenceService}
use pd_manager.Config.{MergedConfig}
use pd_manager.Translator.{build}
use pd_manager.Workload.{RoleBasedGroup}
use pd_manager.Controller.Action.{Action, Keeps, Keeps->>=, pure, write, or_panic, ◌>>=◌}
use pd_manager.Controller.Reconcile.{
  finalizer, ensure_finalizer, with_finalizers, apply_on, apply_rbg, set_failed_status, sync_on,
  sync_status, CtrlResult, reconcile_with, reconcile_on, reconcile_live,
}

module _ (p : Platform) (c : Client p) (kept : KeepsProfiles p c) (k : NamespacedName) where
  -- The profile under `k` reads as before.
  abbrev pub KeepsProfile : {A : Type 0} → Action c.World A → c.World → Type 0
  KeepsProfile = Keeps (c.get_profile k)

  write_status-KeepsProfile :
      (pdis : PdInferenceService) (r : CtrlResult) (w : c.World)
      → KeepsProfile (write (c.update_status pdis) >>= λ _. pure r) w
  write_status-KeepsProfile pdis r w =
      Keeps->>= (c.get_profile k) (write (c.update_status pdis)) (λ _. pure r) w
        (kept.update_status_profiles pdis w k) (λ _ _. refl)

  sync_on-KeepsProfile :
      (answer : Result (RoleBasedGroup p.Quantity)) (pdis : PdInferenceService) (w : c.World)
      → KeepsProfile (sync_on p c answer pdis) w
  sync_on-KeepsProfile (ok rbg) pdis w = write_status-KeepsProfile _ _ w
  sync_on-KeepsProfile (err e) pdis w = elim (Bool-cases (is_not_found e)) [
    | inl missing ↦ rw missing (write_status-KeepsProfile _ _ w)
    | inr other ↦ rw other refl
  ]

  sync_status-KeepsProfile :
      (pdis : PdInferenceService) (w : c.World) → KeepsProfile (sync_status p c pdis) w
  unfolding sync_status
  sync_status-KeepsProfile pdis w = sync_on-KeepsProfile (c.get_group (service_key pdis) w) pdis w

  apply_on-KeepsProfile :
      (answer : Result (RoleBasedGroup p.Quantity)) (desired : RoleBasedGroup p.Quantity)
      (w : c.World)
      → KeepsProfile (apply_on p c answer desired) w
  apply_on-KeepsProfile (ok existing) desired w =
      kept.update_group_profiles (record existing { roles = desired.roles }) w k
  apply_on-KeepsProfile (err e) desired w = elim (Bool-cases (is_not_found e)) [
    | inl missing ↦ rw missing (kept.create_group_profiles desired w k)
    | inr other ↦ rw other refl
  ]

  apply_rbg-KeepsProfile :
      (pdis : PdInferenceService) (desired : RoleBasedGroup p.Quantity) (w : c.World)
      → KeepsProfile (apply_rbg p c pdis desired) w
  unfolding apply_rbg
  apply_rbg-KeepsProfile pdis desired w =
      apply_on-KeepsProfile (c.get_group (service_key pdis) w) desired w

  reconcile_with-KeepsProfile :
      (pdis : PdInferenceService) (cfg : MergedConfig) (w : c.World)
      → KeepsProfile (reconcile_with p c pdis cfg) w
  unfolding reconcile_with
  reconcile_with-KeepsProfile pdis cfg w = by_build (build p.parse_quantity pdis cfg)
    where
      by_build :
          (built : Option (RoleBasedGroup p.Quantity))
          → KeepsProfile
              (or_panic built >>= λ desired.
                (apply_rbg p c pdis desired >>= λ _. sync_status p c pdis))
              w
      by_build none = refl
      by_build (some desired) =
          Keeps->>= (c.get_profile k) (apply_rbg p c pdis desired) (λ _. sync_status p c pdis) w
            (apply_rbg-KeepsProfile pdis desired w) (λ _ _. sync_status-KeepsProfile pdis _)

  reconcile_on-KeepsProfile :
      (merged : Result MergedConfig) (pdis : PdInferenceService) (w : c.World)
      → KeepsProfile (reconcile_on p c merged pdis) w
  unfolding set_failed_status
  reconcile_on-KeepsProfile (ok cfg) pdis w = reconcile_with-KeepsProfile pdis cfg w
  reconcile_on-KeepsProfile (err e) pdis w = write_status-KeepsProfile _ _ w

  pub ensure_finalizer-KeepsProfile :
      (pdis : PdInferenceService) (w : c.World) → KeepsProfile (ensure_finalizer p c pdis) w
  unfolding ensure_finalizer
  ensure_finalizer-KeepsProfile pdis w =
      elim (Bool-cases (p.contains_finalizer finalizer pdis.metadata.finalizers)) [
        | inl present ↦ rw present refl
        | inr absent ↦ rw absent (kept.update_service_profiles (with_finalizers p c pdis) w k)
      ]

  pub reconcile_live-KeepsProfile :
      (pdis : PdInferenceService) (w : c.World) → KeepsProfile (reconcile_live p c pdis) w
  unfolding reconcile_live
  reconcile_live-KeepsProfile pdis w =
      Keeps->>= (c.get_profile k) (ensure_finalizer p c pdis) _ w
        (ensure_finalizer-KeepsProfile pdis w) (λ ensured _. reconcile_on-KeepsProfile _ ensured _)
