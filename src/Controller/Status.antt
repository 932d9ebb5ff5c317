-- ===== src/Controller/Status.antt =====
-- internal/controller/status.go: the phase and the role statuses from the state of the RBG.
use pd_manager.Common.{
  ℕ, ◌*◌, ◌^◌, ◌-◌, ℤ, pos, negsuc, sub_ℕ, ltb_ℤ, Bool, true, false, not, ◌||◌, Option, none, some,
  List, [], ◌∷◌, map, ◌==◌, if◌then◌else◌,
}
use pd_manager.Api.{
  Time, is_zero, Condition, Phase, pending, initializing, running, failed, terminating, RoleStatus,
  PdInferenceService,
}
use pd_manager.Workload.{RoleBasedGroup, RbgRoleStatus}

-- Nanoseconds.
abbrev Duration : Type 0
Duration = ℤ

abbrev max_duration : Duration
max_duration = pos (2 ^ 63 - 1)

abbrev min_duration : Duration
min_duration = negsuc (2 ^ 63 - 1)

-- `time.Since`: the difference, held within the range of `int64`.
abbrev pub since : Time → Time → Duration
since now t =
    let d = sub_ℕ now t in
    if ltb_ℤ max_duration d then max_duration else if ltb_ℤ d min_duration then min_duration else d

-- `30 * time.Minute`
abbrev pub initializing_limit : ℕ
initializing_limit = 30 * 60 * 1_000_000_000

-- The loop of `allRolesReady`.
abbrev pub roles_ready : List RbgRoleStatus → Bool
roles_ready [] = true
roles_ready (rs ∷ statuses) =
    if ltb_ℤ rs.ready_replicas rs.replicas then false else roles_ready statuses

-- The test of `allRolesReady` on the number of statuses, and its loop.
abbrev pub all_ready : List RbgRoleStatus → Bool
all_ready [] = false
all_ready (rs ∷ statuses) = roles_ready (rs ∷ statuses)

-- The loop of `hasCrashLoop`.
abbrev pub crash_loops : List Condition → Bool
crash_loops [] = false
crash_loops (cond ∷ conditions) =
    if cond.reason == "CrashLoopBackOff" || cond.reason == "OOMKilled"
    then true
    else crash_loops conditions

module _ {Q : Type 0} where
  unfoldable pub all_roles_ready : RoleBasedGroup Q → Bool
  all_roles_ready rbg = all_ready rbg.status.role_statuses

  unfoldable pub has_crash_loop : RoleBasedGroup Q → Bool
  has_crash_loop rbg = crash_loops rbg.status.conditions

  unfoldable pub is_initializing_too_long : Time → RoleBasedGroup Q → PdInferenceService → Bool
  is_initializing_too_long now rbg pdis =
      if all_roles_ready rbg
      then false
      else ltb_ℤ (pos initializing_limit) (since now pdis.metadata.creation_timestamp)

  -- The phase of a service that is not deleted.
  abbrev pub live_phase : Time → Option (RoleBasedGroup Q) → PdInferenceService → Phase
  live_phase now none pdis = pending
  live_phase now (some rbg) pdis =
      if has_crash_loop rbg
      then failed
      else if is_initializing_too_long now rbg pdis
      then failed
      else if all_roles_ready rbg
      then running
      else initializing

  unfoldable pub compute_phase : Time → Option (RoleBasedGroup Q) → PdInferenceService → Phase
  unfolding all_roles_ready has_crash_loop is_initializing_too_long
  compute_phase now rbg pdis =
      if not (is_zero pdis.metadata.deletion_timestamp)
      then terminating
      else live_phase now rbg pdis

  unfoldable pub build_role_statuses : RoleBasedGroup Q → List RoleStatus
  build_role_statuses rbg =
      map (λ rs. record { name = rs.name; ready = rs.ready_replicas; total = rs.replicas })
        rbg.status.role_statuses
