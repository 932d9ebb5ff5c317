-- ===== src/Controller/Reconcile.antt =====
-- internal/controller/pdinferenceservice_controller.go, and `syncStatus` of status.go.
use pd_manager.Common.{
  ℕ, ◌*◌, String, not, Option, none, some, Result, ok, err, is_not_found, error_text, wrapped,
  if◌then◌else◌,
}
use pd_manager.Platform.{Platform}
use pd_manager.Cluster.{Client, service_key}
use pd_manager.Api.{
  NamespacedName, ObjectMeta, is_zero, failed, PdInferenceService, PdInferenceServiceStatus,
}
use pd_manager.Config.{MergedConfig, resolve}
use pd_manager.Translator.{build}
use pd_manager.Workload.{RoleBasedGroup}
use pd_manager.Controller.Status.{compute_phase, build_role_statuses}
use pd_manager.Controller.Conditions.{set_ready_condition}
use pd_manager.Controller.Action.{Action, pure, fail, write, read, or_panic, ◌>>=◌}

abbrev pub finalizer : String
finalizer = "pdai.io/finalizer"

-- `ctrl.Result`; `Result{}` asks for no requeue.
pub record CtrlResult : Type 0 where
  pub requeue_after : ℕ

abbrev pub no_requeue : CtrlResult
no_requeue = record { requeue_after = 0 }

-- `ctrl.Result{RequeueAfter: 10 * time.Second}`
abbrev pub poll_again : CtrlResult
poll_again = record { requeue_after = 10 * 1_000_000_000 }

module _ (p : Platform) (c : Client p) where
  open p use {Quantity, parse_quantity, quote, contains_finalizer, add_finalizer, remove_finalizer}
  open c use {
    World, now, get_service, get_profile, get_group, update_service, update_status, create_group,
    update_group,
  }

  abbrev pub with_finalizers : PdInferenceService → PdInferenceService
  with_finalizers pdis =
      let metadata : ObjectMeta = record (pdis.metadata) {
        finalizers = add_finalizer finalizer pdis.metadata.finalizers;
      } in
      record pdis { metadata = metadata }

  abbrev pub without_finalizers : PdInferenceService → PdInferenceService
  without_finalizers pdis =
      let metadata : ObjectMeta = record (pdis.metadata) {
        finalizers = remove_finalizer finalizer pdis.metadata.finalizers;
      } in
      record pdis { metadata = metadata }

  -- The service as it stands after the call: the client's `Update` fills in the server's answer.
  unfoldable pub ensure_finalizer : PdInferenceService → Action World PdInferenceService
  ensure_finalizer pdis =
      if contains_finalizer finalizer pdis.metadata.finalizers
      then pure pdis
      else write (update_service (with_finalizers pdis))

  unfoldable pub handle_deletion : PdInferenceService → Action World CtrlResult
  handle_deletion pdis =
      if not (contains_finalizer finalizer pdis.metadata.finalizers)
      then pure no_requeue
      else (write (update_service (without_finalizers pdis)) >>= λ _. pure no_requeue)

  -- The branches of `applyRBG` on the answer to its read.
  abbrev pub apply_on :
      Result (RoleBasedGroup Quantity) → RoleBasedGroup Quantity → Action World (Unit {0})
  apply_on (ok existing) desired = write (update_group (record existing { roles = desired.roles }))
  apply_on (err e) desired =
      if is_not_found e then write (create_group desired) else fail (wrapped "get RBG" e)

  unfoldable pub apply_rbg : PdInferenceService → RoleBasedGroup Quantity → Action World (Unit {0})
  apply_rbg pdis desired = do answer ← read (get_group (service_key pdis)); apply_on answer desired

  -- `setFailedStatus`
  abbrev pub failed_status : PdInferenceService → String → String → PdInferenceService
  failed_status pdis reason message =
      let status : PdInferenceServiceStatus = record (pdis.status) {
        phase = failed;
        last_event = some (record { reason = reason; message = message });
      } in
      record pdis { status = status }

  unfoldable pub set_failed_status : PdInferenceService → String → String → Action World CtrlResult
  set_failed_status pdis reason message = do
    _ ← write (update_status (failed_status pdis reason message))
    pure no_requeue

  -- `if rbg != nil { pdis.Status.RoleStatuses = buildRoleStatuses(rbg) }`
  abbrev role_statuses_after :
      Option (RoleBasedGroup Quantity) → PdInferenceServiceStatus → PdInferenceServiceStatus
  role_statuses_after none status = status
  role_statuses_after (some rbg) status = record status { role_statuses = build_role_statuses rbg }

  -- The status that `syncStatus` writes.
  abbrev pub synced_status :
      ℕ → Option (RoleBasedGroup Quantity) → PdInferenceService → PdInferenceService
  synced_status time rbg pdis =
      let phased : PdInferenceServiceStatus = record (pdis.status) {
        phase = compute_phase time rbg pdis;
      } in
      record pdis { status = set_ready_condition time (role_statuses_after rbg phased) }

  -- `syncStatus` from the RBG on, which is nil where the read answers "not found"
  abbrev pub sync_from :
      Option (RoleBasedGroup Quantity) → PdInferenceService → Action World CtrlResult
  sync_from rbg pdis = do
    time ← read now
    _ ← write (update_status (synced_status time rbg pdis))
    pure poll_again

  abbrev pub sync_on :
      Result (RoleBasedGroup Quantity) → PdInferenceService → Action World CtrlResult
  sync_on (ok rbg) pdis = sync_from (some rbg) pdis
  sync_on (err e) pdis = if is_not_found e then sync_from none pdis else fail e

  unfoldable pub sync_status : PdInferenceService → Action World CtrlResult
  sync_status pdis = do answer ← read (get_group (service_key pdis)); sync_on answer pdis

  -- Steps 5 to 7 of `Reconcile`. `Build` never returns an error, so there is no such branch.
  unfoldable pub reconcile_with : PdInferenceService → MergedConfig → Action World CtrlResult
  reconcile_with pdis merged_config = do
    desired_rbg ← or_panic (build parse_quantity pdis merged_config)
    _ ← apply_rbg pdis desired_rbg
    sync_status pdis

  abbrev pub reconcile_on : Result MergedConfig → PdInferenceService → Action World CtrlResult
  reconcile_on (ok merged_config) pdis = reconcile_with pdis merged_config
  reconcile_on (err e) pdis = set_failed_status pdis "ProfileResolveFailed" (error_text e)

  -- Steps 3 and 4 of `Reconcile`.
  unfoldable pub reconcile_live : PdInferenceService → Action World CtrlResult
  reconcile_live fetched = do
    pdis ← ensure_finalizer fetched
    merged ← read (λ w. resolve quote (λ k. get_profile k w) pdis)
    reconcile_on merged pdis

  abbrev pub reconcile_fetched : Result PdInferenceService → Action World CtrlResult
  reconcile_fetched (err e) = if is_not_found e then pure no_requeue else fail e
  reconcile_fetched (ok pdis) =
      if not (is_zero pdis.metadata.deletion_timestamp)
      then handle_deletion pdis
      else reconcile_live pdis

  -- `Reconcile`
  unfoldable pub reconcile : NamespacedName → Action World CtrlResult
  reconcile request = do answer ← read (get_service request); reconcile_fetched answer
