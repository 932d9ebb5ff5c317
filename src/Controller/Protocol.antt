-- ===== src/Controller/Protocol.antt =====
-- What a reconciliation writes and in which order, whatever other writers do meanwhile.
use pd_manager.Common.{
  ℕ, ◌≤◌, ◌≡◌, inl, inr, Option, none, some, List, [], Result, ok, err, Outcome, returned, panicked,
  returned_result, returned-injective, is_not_found, refl, sym, ap, ◌∙◌, Bool-cases, arith,
}
use pd_manager.Platform.{Platform}
use pd_manager.Cluster.{Client, AnswersByKey, service_key, group_key}
use pd_manager.Api.{NamespacedName, PdInferenceService, is_zero}
use pd_manager.Config.{MergedConfig}
use pd_manager.Translator.{build}
use pd_manager.Translator.Shape.{build-IsGroupOf}
use pd_manager.Workload.{RoleBasedGroup}
use pd_manager.Controller.Action.{Action, continue, pure, write, or_panic, ◌>>=◌}
use pd_manager.Controller.Trace.{
  Write, service_write, status_write, creation, group_write, logged, IsInOrder, IsInOrder-append,
  IsInOrder-weaken,
}
use pd_manager.Controller.Reconcile.{
  finalizer, CtrlResult, ensure_finalizer, handle_deletion, with_finalizers, without_finalizers,
  apply_on, apply_rbg, set_failed_status, sync_on, sync_status, reconcile_with, reconcile_on,
  reconcile_live, reconcile_fetched, reconcile,
}

module _ (p : Platform) (c : Client p) (keys : AnswersByKey p c) (k : NamespacedName) where
  abbrev LoggedWorld : Type 0
  LoggedWorld = c.World × List (Write p)

  -- From writes up to stage `n` a call goes on to writes up to stage `m`, however it ends.
  abbrev Goes : {A : Type 0} → ℕ → ℕ → Action LoggedWorld A → LoggedWorld → Type 0
  Goes n m call w = IsInOrder k n w.1 → IsInOrder k m (call w).1.1

  Goes->>= :
      {A B : Type 0} (n m l : ℕ) (call : Action LoggedWorld A) (f : A → Action LoggedWorld B)
      (w : LoggedWorld)
      → Goes n m call w
      → m ≤ l
      → ((a : A) → (call w).0 ≡ returned (ok a) → Goes m l (f a) (call w).1)
      → Goes n l (call >>= f) w
  Goes->>= {A} {B} n m l call f w first le second h = split (call w).0 refl
    where
      split : (o : Outcome A) → (call w).0 ≡ o → IsInOrder k l (continue o f (call w).1).1.1
      split (returned (ok a)) e = second a e (first h)
      split (returned (err e')) e = IsInOrder-weaken k m l (call w).1.1 (first h) le
      split panicked e = IsInOrder-weaken k m l (call w).1.1 (first h) le

  -- A write of the status, and whatever is returned after it.
  write_status-Goes :
      (pdis : PdInferenceService) (r : CtrlResult) (n : ℕ) (w : LoggedWorld)
      → service_key pdis ≡ k
      → n ≤ 2
      → Goes n 3 (write ((logged p c).update_status pdis) >>= λ _. pure r) w
  write_status-Goes pdis r n w key le =
      Goes->>= n 3 3 (write ((logged p c).update_status pdis)) (λ _. pure r) w
        (λ h. IsInOrder-append k n w.1 (status_write pdis) h key le) (omega arith) (λ _ _ h. h)

  sync_on-Goes :
      (answer : Result (RoleBasedGroup p.Quantity)) (pdis : PdInferenceService) (w : LoggedWorld)
      → service_key pdis ≡ k
      → Goes 2 3 (sync_on p (logged p c) answer pdis) w
  sync_on-Goes (ok rbg) pdis w key = write_status-Goes _ _ 2 w key (omega arith)
  sync_on-Goes (err e) pdis w key = elim (Bool-cases (is_not_found e)) [
    | inl missing ↦ rw missing (write_status-Goes _ _ 2 w key (omega arith))
    | inr other ↦ rw other (λ h. IsInOrder-weaken k 2 3 w.1 h (omega arith))
  ]

  sync_status-Goes :
      (pdis : PdInferenceService) (w : LoggedWorld)
      → service_key pdis ≡ k
      → Goes 2 3 (sync_status p (logged p c) pdis) w
  unfolding sync_status
  sync_status-Goes pdis w = sync_on-Goes (c.get_group (service_key pdis) w.0) pdis w

  apply_on-Goes :
      (answer : Result (RoleBasedGroup p.Quantity)) (pdis : PdInferenceService)
      (desired : RoleBasedGroup p.Quantity) (w : LoggedWorld)
      → service_key pdis ≡ k
      → group_key desired ≡ k
      → c.get_group (service_key pdis) w.0 ≡ answer
      → Goes 1 2 (apply_on p (logged p c) answer desired) w
  apply_on-Goes (ok existing) pdis desired w key own found = λ h.
      IsInOrder-append k 1 w.1 (group_write (record existing { roles = desired.roles })) h
        (keys.get_group_key (service_key pdis) w.0 existing found ∙ key) (omega arith)
  apply_on-Goes (err e) pdis desired w key own found = elim (Bool-cases (is_not_found e)) [
    | inl missing ↦
        rw missing (λ h. IsInOrder-append k 1 w.1 (creation desired) h own (omega arith))
    | inr other ↦ rw other (λ h. IsInOrder-weaken k 1 2 w.1 h (omega arith))
  ]

  apply_rbg-Goes :
      (pdis : PdInferenceService) (desired : RoleBasedGroup p.Quantity) (w : LoggedWorld)
      → service_key pdis ≡ k
      → group_key desired ≡ k
      → Goes 1 2 (apply_rbg p (logged p c) pdis desired) w
  unfolding apply_rbg
  apply_rbg-Goes pdis desired w key own =
      apply_on-Goes (c.get_group (service_key pdis) w.0) pdis desired w key own refl

  -- The group that is built has the key of its service.
  build-key :
      (pdis : PdInferenceService) (cfg : MergedConfig) (desired : RoleBasedGroup p.Quantity)
      → build p.parse_quantity pdis cfg ≡ some desired
      → group_key desired ≡ service_key pdis
  build-key pdis cfg desired built =
      let shape = build-IsGroupOf p.parse_quantity pdis cfg desired built in
      cc (shape.name, shape.namespace)

  reconcile_with-Goes :
      (pdis : PdInferenceService) (cfg : MergedConfig) (w : LoggedWorld)
      → service_key pdis ≡ k
      → Goes 1 3 (reconcile_with p (logged p c) pdis cfg) w
  unfolding reconcile_with
  reconcile_with-Goes pdis cfg w key = by_build (build p.parse_quantity pdis cfg) refl
    where
      by_build :
          (built : Option (RoleBasedGroup p.Quantity))
          → build p.parse_quantity pdis cfg ≡ built
          → Goes 1 3
              (or_panic built >>= λ desired.
                (apply_rbg p (logged p c) pdis desired >>= λ _. sync_status p (logged p c) pdis))
              w
      by_build none e = λ h. IsInOrder-weaken k 1 3 w.1 h (omega arith)
      by_build (some desired) e =
          Goes->>= 1 2 3 (apply_rbg p (logged p c) pdis desired)
            (λ _. sync_status p (logged p c) pdis) w
            (apply_rbg-Goes pdis desired w key (build-key pdis cfg desired e ∙ key)) (omega arith)
            (λ _ _. sync_status-Goes pdis _ key)

  reconcile_on-Goes :
      (merged : Result MergedConfig) (pdis : PdInferenceService) (w : LoggedWorld)
      → service_key pdis ≡ k
      → Goes 1 3 (reconcile_on p (logged p c) merged pdis) w
  unfolding set_failed_status
  reconcile_on-Goes (ok cfg) pdis w key = reconcile_with-Goes pdis cfg w key
  reconcile_on-Goes (err e) pdis w key = write_status-Goes _ _ 1 w key (omega arith)

  -- The finalizer is written at most, and the service keeps its key.
  ensure_finalizer-Goes :
      (pdis : PdInferenceService) (w : LoggedWorld)
      → service_key pdis ≡ k
      → Goes 0 1 (ensure_finalizer p (logged p c) pdis) w
  unfolding ensure_finalizer
  ensure_finalizer-Goes pdis w key =
      elim (Bool-cases (p.contains_finalizer finalizer pdis.metadata.finalizers)) [
        | inl present ↦ rw present (λ h. IsInOrder-weaken k 0 1 w.1 h (omega arith))
        | inr absent ↦ rw absent (λ h.
            IsInOrder-append k 0 w.1 (service_write (with_finalizers p c pdis)) h key (omega arith))
      ]

  ensure_finalizer-key :
      (pdis ensured : PdInferenceService) (w : LoggedWorld)
      → service_key pdis ≡ k
      → (ensure_finalizer p (logged p c) pdis w).0 ≡ returned (ok ensured)
      → service_key ensured ≡ k
  unfolding ensure_finalizer
  ensure_finalizer-key pdis ensured w key done =
      elim (Bool-cases (p.contains_finalizer finalizer pdis.metadata.finalizers)) [
        | inl present ↦ ap service_key (sym (returned-injective _ _ (rw present at done))) ∙ key
        | inr absent ↦
            keys.update_service_key (with_finalizers p c pdis) ensured w.0
              (returned_result _ _ (rw absent at done))
            ∙ key
      ]

  handle_deletion-Goes :
      (pdis : PdInferenceService) (w : LoggedWorld)
      → service_key pdis ≡ k
      → Goes 0 1 (handle_deletion p (logged p c) pdis) w
  unfolding handle_deletion
  handle_deletion-Goes pdis w key =
      elim (Bool-cases (p.contains_finalizer finalizer pdis.metadata.finalizers)) [
        | inl present ↦ rw present (
            Goes->>= 0 1 1 (write ((logged p c).update_service (without_finalizers p c pdis))) _ w
              (λ h.
                IsInOrder-append k 0 w.1 (service_write (without_finalizers p c pdis)) h key
                  (omega arith))
              (omega arith) (λ _ _ h. h))
        | inr absent ↦ rw absent (λ h. IsInOrder-weaken k 0 1 w.1 h (omega arith))
      ]

  reconcile_live-Goes :
      (pdis : PdInferenceService) (w : LoggedWorld)
      → service_key pdis ≡ k
      → Goes 0 3 (reconcile_live p (logged p c) pdis) w
  unfolding reconcile_live
  reconcile_live-Goes pdis w key =
      Goes->>= 0 1 3 (ensure_finalizer p (logged p c) pdis) _ w (ensure_finalizer-Goes pdis w key)
        (omega arith)
        (λ ensured done.
          reconcile_on-Goes _ ensured _ (ensure_finalizer-key pdis ensured w key done))

  reconcile_fetched-Goes :
      (answer : Result PdInferenceService) (w : LoggedWorld)
      → c.get_service k w.0 ≡ answer
      → Goes 0 3 (reconcile_fetched p (logged p c) answer) w
  reconcile_fetched-Goes (err e) w fetched = elim (Bool-cases (is_not_found e)) [
    | inl missing ↦ rw missing (λ h. IsInOrder-weaken k 0 3 w.1 h (omega arith))
    | inr other ↦ rw other (λ h. IsInOrder-weaken k 0 3 w.1 h (omega arith))
  ]
  reconcile_fetched-Goes (ok pdis) w fetched =
      let key = keys.get_service_key k w.0 pdis fetched in
      elim (Bool-cases (is_zero pdis.metadata.deletion_timestamp)) [
        | inl live ↦ rw live (reconcile_live-Goes pdis w key)
        | inr deleted ↦ rw deleted (λ h.
            IsInOrder-weaken k 1 3 (handle_deletion p (logged p c) pdis w).1.1
              (handle_deletion-Goes pdis w key h) (omega arith))
      ]

-- Whatever other writers do between its calls, and whatever the server answers as long as it answers
-- about the object that it is asked for: a reconciliation writes at most three times, in this
-- order, and only to objects of its request's key: the service, for its finalizer; then the group,
-- which it creates or updates; then the status of the service.
pub reconcile-IsInOrder :
    (p : Platform) (c : Client p) (keys : AnswersByKey p c) (request : NamespacedName) (w : c.World)
    → IsInOrder request 3 (reconcile p (logged p c) request (w, [])).1.1
unfolding reconcile
reconcile-IsInOrder p c keys request w =
    reconcile_fetched-Goes p c keys request (c.get_service request w) (w, []) refl (tt, omega arith)
