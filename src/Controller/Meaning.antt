-- ===== src/Controller/Meaning.antt =====
-- What each phase means, stated without the code's tests.
use pd_manager.Common.{
  ◌+◌, ◌<◌, pos, ltb_ℤ, ◌≤ℤ◌, ◌≡◌, ◌≢◌, ◌↔◌, ◌⊎◌, inl, inr, true, false, Option, none, some, List,
  [], ◌∷◌, All, Any, refl, arith, eq_iff, Bool-cases,
}
use pd_manager.Api.{
  Time, is_zero, Condition, Phase, pending, initializing, running, failed, terminating, other,
  PdInferenceService,
}
use pd_manager.Workload.{RoleBasedGroup, RbgRoleStatus}
use pd_manager.Controller.Status.{since, initializing_limit, roles_ready, all_ready, crash_loops}

-- A deletion timestamp is set.
abbrev pub IsDeleted : PdInferenceService → Type 0
IsDeleted pdis = (t : Time) × (pdis.metadata.deletion_timestamp ≡ some t) × (0 < t)

-- More than thirty minutes have passed since the creation of the service.
abbrev pub IsOverdue : Time → PdInferenceService → Type 0
IsOverdue now pdis = pdis.metadata.creation_timestamp + initializing_limit < now

module _ {Q : Type 0} where
  abbrev pub CrashLoops : RoleBasedGroup Q → Type 0
  CrashLoops rbg =
      Any (λ c. (c.reason ≡ "CrashLoopBackOff") ⊎ (c.reason ≡ "OOMKilled")) rbg.status.conditions

  -- There is a role status, and none has fewer ready replicas than replicas.
  abbrev pub AllReady : RoleBasedGroup Q → Type 0
  AllReady rbg =
      (rbg.status.role_statuses ≢ [])
      × All (λ rs. rs.replicas ≤ℤ rs.ready_replicas) rbg.status.role_statuses

  abbrev pub PhaseMeans : Time → Option (RoleBasedGroup Q) → PdInferenceService → Phase → Type 0
  PhaseMeans now rbg pdis terminating = IsDeleted pdis
  PhaseMeans now rbg pdis pending = (¬ IsDeleted pdis) × (rbg ≡ none)
  PhaseMeans now rbg pdis failed =
      (¬ IsDeleted pdis)
      × ((g : RoleBasedGroup Q) × (rbg ≡ some g)
          × (CrashLoops g ⊎ ((¬ AllReady g) × IsOverdue now pdis)))
  PhaseMeans now rbg pdis running =
      (¬ IsDeleted pdis) × ((g : RoleBasedGroup Q) × (rbg ≡ some g) × (¬ CrashLoops g) × AllReady g)
  PhaseMeans now rbg pdis initializing =
      (¬ IsDeleted pdis)
      × ((g : RoleBasedGroup Q) × (rbg ≡ some g)
          × (¬ CrashLoops g)
          × (¬ AllReady g)
          × (¬ IsOverdue now pdis))
  PhaseMeans now rbg pdis (other text) = ⊥

pub is_zero_iff :
    (pdis : PdInferenceService)
    → (is_zero pdis.metadata.deletion_timestamp ≡ false) ↔ IsDeleted pdis
is_zero_iff pdis = by_timestamp pdis.metadata.deletion_timestamp
  where
    by_timestamp : (d : Option Time) → (is_zero d ≡ false) ↔ ((t : Time) × (d ≡ some t) × (0 < t))
    by_timestamp none = (λ h. absurd (cc), λ h. absurd (cc (h.1)))
    by_timestamp (some t) = (λ h. (t, refl, ground arith), λ (u, e, p). ground arith)

pub IsDeleted-cases : (pdis : PdInferenceService) → IsDeleted pdis ⊎ (¬ IsDeleted pdis)
IsDeleted-cases pdis = elim (Bool-cases (is_zero pdis.metadata.deletion_timestamp)) [
  | inl zero_time ↦ inr (λ h. cc ((is_zero_iff pdis).1 h))
  | inr set ↦ inl ((is_zero_iff pdis).0 set)
]

pub crash_loops_iff :
    (conditions : List Condition)
    → (crash_loops conditions ≡ true)
      ↔ Any (λ c. (c.reason ≡ "CrashLoopBackOff") ⊎ (c.reason ≡ "OOMKilled")) conditions
crash_loops_iff [] = ground arith
crash_loops_iff (c ∷ conditions) = ground (
  arith,
  eq_iff c.reason "CrashLoopBackOff",
  eq_iff c.reason "OOMKilled",
  crash_loops_iff conditions,
)

roles_ready_iff :
    (statuses : List RbgRoleStatus)
    → (roles_ready statuses ≡ true) ↔ All (λ rs. rs.replicas ≤ℤ rs.ready_replicas) statuses
roles_ready_iff [] = (λ _. tt, λ _. refl)
roles_ready_iff (rs ∷ statuses) = ground (arith, roles_ready_iff statuses)

pub all_ready_iff :
    (statuses : List RbgRoleStatus)
    → (all_ready statuses ≡ true)
      ↔ ((statuses ≢ []) × All (λ rs. rs.replicas ≤ℤ rs.ready_replicas) statuses)
all_ready_iff [] = (λ h. absurd (cc), λ h. absurd (h.0 refl))
all_ready_iff (rs ∷ statuses) =
    let loop = roles_ready_iff (rs ∷ statuses) in ((λ h. ((λ e. cc), loop.0 h)), λ h. loop.1 h.1)

pub overdue_iff :
    (now t : Time)
    → (ltb_ℤ (pos initializing_limit) (since now t) ≡ true) ↔ (t + initializing_limit < now)
overdue_iff now t = ground arith
