-- ===== src/Controller/Applied.antt =====
-- What applying the group and syncing the status leave in the cluster.
use pd_manager.Common.{
  ◌≡◌, inl, inr, Option, none, some, Result, ok, err, is_not_found, true, returned, returned_result,
  refl, sym, ap, ◌∙◌, Bool-cases,
}
use pd_manager.Platform.{Platform}
use pd_manager.Cluster.{Client, ClientLaws, service_key, group_key}
use pd_manager.Api.{NamespacedName, PdInferenceService}
use pd_manager.Config.{MergedConfig}
use pd_manager.Translator.{build}
use pd_manager.Translator.Shape.{build-IsGroupOf}
use pd_manager.Workload.{RoleBasedGroup}
use pd_manager.Controller.Action.{>>=-eq-returned, write, or_panic, ◌>>=◌}
use pd_manager.Controller.Reconcile.{
  CtrlResult, apply_on, apply_rbg, sync_from, sync_on, sync_status, reconcile_with, synced_status,
}

-- What the answer to a read of the group tells `syncStatus`: the group, or none where the answer is
-- "not found".
abbrev pub IsSeen : {Q : Type 0} → Result (RoleBasedGroup Q) → Option (RoleBasedGroup Q) → Type 0
IsSeen (ok g) seen = seen ≡ some g
IsSeen (err e) seen = (is_not_found e ≡ true) × (seen ≡ none)

module _ (p : Platform) (c : Client p) (laws : ClientLaws p c) where
  -- The group that an accepted `applyRBG` leaves under the key of the service.
  apply_on-stores :
      (answer : Result (RoleBasedGroup p.Quantity)) (desired : RoleBasedGroup p.Quantity)
      (k : NamespacedName) (w : c.World)
      → group_key desired ≡ k
      → ((existing : RoleBasedGroup p.Quantity) → answer ≡ ok existing → group_key existing ≡ k)
      → (apply_on p c answer desired w).0 ≡ returned (ok tt)
      → (g : RoleBasedGroup p.Quantity) × (laws.stored_group k (apply_on p c answer desired w).1
          ≡ some g)
        × (g.roles ≡ desired.roles)
  apply_on-stores (ok existing) desired k w key other done =
      let g : RoleBasedGroup p.Quantity = record existing { roles = desired.roles } in
      let accepted = returned_result _ _ done in
      (
        g,
        ap (λ x. laws.stored_group x (c.update_group g w).1) (sym (other existing refl))
            ∙ laws.update_group_stores g w accepted,
        refl,
      )
  apply_on-stores (err e) desired k w key other done = elim (Bool-cases (is_not_found e)) [
    | inl missing ↦ rw missing (
      desired,
      ap (λ x. laws.stored_group x (c.create_group desired w).1) (sym key)
          ∙ laws.create_group_stores desired w (returned_result _ _ (rw missing at done)),
      refl,
    )
    | inr lost ↦ absurd (cc (rw lost at done))
  ]

  pub apply_on-services :
      (answer : Result (RoleBasedGroup p.Quantity)) (desired : RoleBasedGroup p.Quantity)
      (k : NamespacedName) (w : c.World)
      → laws.stored_service k (apply_on p c answer desired w).1 ≡ laws.stored_service k w
  apply_on-services (ok existing) desired k w = laws.update_group_services _ w k
  apply_on-services (err e) desired k w = elim (Bool-cases (is_not_found e)) [
    | inl missing ↦ rw missing (laws.create_group_services desired w k)
    | inr lost ↦ rw lost refl
  ]

  sync_from-stores :
      (seen : Option (RoleBasedGroup p.Quantity)) (pdis old : PdInferenceService) (r : CtrlResult)
      (w w' : c.World)
      → laws.stored_service (service_key pdis) w ≡ some old
      → sync_from p c seen pdis w ≡ (returned (ok r), w')
      → (laws.stored_group (service_key pdis) w' ≡ laws.stored_group (service_key pdis) w)
        × (laws.stored_service (service_key pdis) w'
            ≡ some (record old { status = (synced_status p c (c.now w) seen pdis).status }))
  sync_from-stores seen pdis old r w w' stored done =
      let sent = synced_status p c (c.now w) seen pdis in
      let (s', accepted, end) = >>=-eq-returned (write (c.update_status sent)) _ w done in
      let reached : (c.update_status sent w).1 ≡ w' = ap (λ t. t.1) end in
      let (held, same) =
        laws.update_status_stores sent old s' w stored (returned_result _ _ accepted) in
      (
        ap (laws.stored_group (service_key pdis)) (sym reached)
            ∙ laws.update_status_groups sent w (service_key pdis),
        ap (laws.stored_service (service_key pdis)) (sym reached) ∙ held ∙ ap some same,
      )

  -- What `syncStatus` leaves, where the server holds the service.
  sync_on-stores :
      (answer : Result (RoleBasedGroup p.Quantity)) (pdis old : PdInferenceService) (r : CtrlResult)
      (w w' : c.World)
      → laws.stored_service (service_key pdis) w ≡ some old
      → sync_on p c answer pdis w ≡ (returned (ok r), w')
      → (seen : Option (RoleBasedGroup p.Quantity)) × IsSeen answer seen
        × (laws.stored_group (service_key pdis) w' ≡ laws.stored_group (service_key pdis) w)
        × (laws.stored_service (service_key pdis) w'
            ≡ some (record old { status = (synced_status p c (c.now w) seen pdis).status }))
  sync_on-stores (ok rbg) pdis old r w w' stored done =
      let (groups, synced) = sync_from-stores (some rbg) pdis old r w w' stored done in
      (some rbg, refl, groups, synced)
  sync_on-stores (err e) pdis old r w w' stored done = elim (Bool-cases (is_not_found e)) [
    | inl missing ↦
        let (groups, synced) = sync_from-stores none pdis old r w w' stored (rw missing at done) in
        (none, (missing, refl), groups, synced)
    | inr lost ↦ absurd (cc (ap (λ t. t.0) (rw lost at done)))
  ]

  -- What steps 5 to 7 leave, if they run to their end: the group that is applied, and the status that
  -- is taken from the group as it reads after that.
  pub record IsApplied (pdis : PdInferenceService) (cfg : MergedConfig) (w w' : c.World)
      : Type 0 where
    pub desired : RoleBasedGroup p.Quantity
    pub built : build p.parse_quantity pdis cfg ≡ some desired
    pub group : RoleBasedGroup p.Quantity
    pub applied : laws.stored_group (service_key pdis) (apply_rbg p c pdis desired w).1 ≡ some group
    pub roles : group.roles ≡ desired.roles
    pub kept : laws.stored_group (service_key pdis) w' ≡ some group
    pub seen : Option (RoleBasedGroup p.Quantity)
    pub is_seen : IsSeen (c.get_group (service_key pdis) (apply_rbg p c pdis desired w).1) seen
    pub synced :
        laws.stored_service (service_key pdis) w'
        ≡ some (synced_status p c (c.now (apply_rbg p c pdis desired w).1) seen pdis)

  pub reconcile_with-stores :
      (pdis : PdInferenceService) (cfg : MergedConfig) (r : CtrlResult) (w w' : c.World)
      → laws.stored_service (service_key pdis) w ≡ some pdis
      → reconcile_with p c pdis cfg w ≡ (returned (ok r), w')
      → IsApplied pdis cfg w w'
  unfolding reconcile_with apply_rbg sync_status
  reconcile_with-stores pdis cfg r w w' stored done =
      by_build (build p.parse_quantity pdis cfg) refl done
    where
      key : NamespacedName
      key = service_key pdis

      by_build :
          (built : Option (RoleBasedGroup p.Quantity))
          → build p.parse_quantity pdis cfg ≡ built
          → (or_panic built >>= λ desired.
                (apply_rbg p c pdis desired >>= λ _. sync_status p c pdis))
              w
            ≡ (returned (ok r), w')
          → IsApplied pdis cfg w w'
      by_build none e h = absurd (cc (ap (λ t. t.0) h))
      by_build (some desired) e h =
          let shape = build-IsGroupOf p.parse_quantity pdis cfg desired e in
          let (_, applied, rest) = >>=-eq-returned (apply_rbg p c pdis desired) _ w h in
          let answer = c.get_group key w in
          let w1 = (apply_rbg p c pdis desired w).1 in
          let (group, stored_g, roles) =
            apply_on-stores answer desired key w
              (λ i. record { namespace = shape.namespace i; name = shape.name i })
              (λ existing found. laws.get_group_key key w existing found) applied in
          let stored_s = apply_on-services answer desired key w ∙ stored in
          let (seen, is_seen, kept_g, synced) =
            sync_on-stores (c.get_group key w1) pdis pdis r w1 w' stored_s rest in
          record {
            desired = desired;
            built = e;
            group = group;
            applied = stored_g;
            roles = roles;
            kept = kept_g ∙ stored_g;
            seen = seen;
            is_seen = is_seen;
            synced = synced;
          }
