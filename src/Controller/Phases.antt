-- ===== src/Controller/Phases.antt =====
-- `computePhase` answers the phase whose meaning holds.
use mathlib.Core.Path.{subst}
use pd_manager.Common.{
  ◌≡◌, ◌↔◌, ◌⊎◌, inl, inr, true, Option, none, some, refl, ap, ◌∙◌, false_of_not, arith, Bool-cases,
}
use pd_manager.Api.{
  Time, is_zero, Phase, pending, initializing, running, failed, terminating, other,
  PdInferenceService,
}
use pd_manager.Workload.{RoleBasedGroup}
use pd_manager.Controller.Status.{
  compute_phase, live_phase, all_roles_ready, has_crash_loop, is_initializing_too_long,
}
use pd_manager.Controller.Meaning.{
  IsDeleted, IsOverdue, CrashLoops, AllReady, PhaseMeans, IsDeleted-cases, is_zero_iff,
  crash_loops_iff, all_ready_iff, overdue_iff,
}

module _ {Q : Type 0} (now : Time) (pdis : PdInferenceService) where
  -- The four tests of the code, at a group.
  module _ (g : RoleBasedGroup Q) where
    has_crash_loop_iff : (has_crash_loop g ≡ true) ↔ CrashLoops g
    unfolding has_crash_loop
    has_crash_loop_iff = crash_loops_iff g.status.conditions

    all_roles_ready_iff : (all_roles_ready g ≡ true) ↔ AllReady g
    unfolding all_roles_ready
    all_roles_ready_iff = all_ready_iff g.status.role_statuses

    is_initializing_too_long_iff :
        (is_initializing_too_long now g pdis ≡ true) ↔ ((¬ AllReady g) × IsOverdue now pdis)
    unfolding is_initializing_too_long
    is_initializing_too_long_iff = elim (Bool-cases (all_roles_ready g)) [
      | inl ready ↦ (λ h. absurd (ground arith), λ h. absurd (h.0 (all_roles_ready_iff.0 ready)))
      | inr waiting ↦
          let overdue = overdue_iff now pdis.metadata.creation_timestamp in
          (
            λ h. ((λ r. cc (all_roles_ready_iff.1 r)), overdue.0 (rw waiting at h)),
            λ h. rw waiting (overdue.1 h.1),
          )
    ]

  live_phase_sound :
      (rbg : Option (RoleBasedGroup Q))
      → ¬ IsDeleted pdis
      → PhaseMeans now rbg pdis (live_phase now rbg pdis)
  live_phase_sound none live = (live, refl)
  live_phase_sound (some g) live = elim (Bool-cases (has_crash_loop g)) [
    | inl crashed ↦ rw crashed (live, (g, refl, inl ((has_crash_loop_iff g).0 crashed)))
    | inr fine ↦ rw fine (elim (Bool-cases (is_initializing_too_long now g pdis)) [
      | inl late ↦ rw late (live, (g, refl, inr ((is_initializing_too_long_iff g).0 late)))
      | inr early ↦ rw early (elim (Bool-cases (all_roles_ready g)) [
        | inl ready ↦ rw ready (
          live,
          (g, refl, (λ c. cc ((has_crash_loop_iff g).1 c)), (all_roles_ready_iff g).0 ready),
        )
        | inr waiting ↦
            let not_ready : ¬ AllReady g = λ r. cc ((all_roles_ready_iff g).1 r) in
            rw waiting (
              live,
              (
                g,
                refl,
                (λ c. cc ((has_crash_loop_iff g).1 c)),
                not_ready,
                λ o. cc ((is_initializing_too_long_iff g).1 (not_ready, o)),
              ),
            )
      ])
    ])
  ]

  deleted_phase :
      (rbg : Option (RoleBasedGroup Q)) → IsDeleted pdis → compute_phase now rbg pdis ≡ terminating
  unfolding compute_phase
  deleted_phase rbg h = rw ((is_zero_iff pdis).1 h)

  undeleted_phase :
      (rbg : Option (RoleBasedGroup Q))
      → ¬ IsDeleted pdis
      → compute_phase now rbg pdis ≡ live_phase now rbg pdis
  unfolding compute_phase
  undeleted_phase rbg live = elim (Bool-cases (is_zero pdis.metadata.deletion_timestamp)) [
    | inl zero_time ↦ rw zero_time
    | inr set ↦ absurd (live ((is_zero_iff pdis).0 set))
  ]

  compute_phase_sound :
      (rbg : Option (RoleBasedGroup Q)) → PhaseMeans now rbg pdis (compute_phase now rbg pdis)
  compute_phase_sound rbg = elim (IsDeleted-cases pdis) [
    | inl deleted ↦ rw (deleted_phase rbg deleted) deleted
    | inr live ↦ rw (undeleted_phase rbg live) (live_phase_sound rbg live)
  ]

  live_failed :
      (g : RoleBasedGroup Q)
      → CrashLoops g ⊎ ((¬ AllReady g) × IsOverdue now pdis)
      → live_phase now (some g) pdis ≡ failed
  live_failed g (inl crashed) = rw ((has_crash_loop_iff g).1 crashed)
  live_failed g (inr late) = ground (arith, (is_initializing_too_long_iff g).1 late)

  live_running :
      (g : RoleBasedGroup Q) → ¬ CrashLoops g → AllReady g → live_phase now (some g) pdis ≡ running
  live_running g fine ready =
      let on_time = false_of_not _ (is_initializing_too_long_iff g) (λ h. h.0 ready) in
      rw (false_of_not _ (has_crash_loop_iff g) fine, on_time, (all_roles_ready_iff g).1 ready)

  live_initializing :
      (g : RoleBasedGroup Q)
      → ¬ CrashLoops g
      → ¬ AllReady g
      → ¬ IsOverdue now pdis
      → live_phase now (some g) pdis ≡ initializing
  live_initializing g fine waiting early =
      let on_time = false_of_not _ (is_initializing_too_long_iff g) (λ h. early h.1) in
      rw (
        false_of_not _ (has_crash_loop_iff g) fine,
        on_time,
        false_of_not _ (all_roles_ready_iff g) waiting,
      )

  compute_phase_complete :
      (rbg : Option (RoleBasedGroup Q)) (p : Phase)
      → PhaseMeans now rbg pdis p
      → compute_phase now rbg pdis ≡ p
  compute_phase_complete rbg terminating h = deleted_phase rbg h
  compute_phase_complete rbg pending (live, e) =
      undeleted_phase rbg live ∙ ap (λ r. live_phase now r pdis) e
  compute_phase_complete rbg failed (live, (g, e, why)) =
      undeleted_phase rbg live ∙ ap (λ r. live_phase now r pdis) e ∙ live_failed g why
  compute_phase_complete rbg running (live, (g, e, fine, ready)) =
      undeleted_phase rbg live ∙ ap (λ r. live_phase now r pdis) e ∙ live_running g fine ready
  compute_phase_complete rbg initializing (live, (g, e, fine, waiting, early)) =
      undeleted_phase rbg live
      ∙ ap (λ r. live_phase now r pdis) e
      ∙ live_initializing g fine waiting early
  compute_phase_complete rbg (other text) h = absurd h

-- `computePhase` answers exactly the phase whose meaning holds: Terminating for a deleted service;
-- else Pending without a group; else Failed if a condition of the group has the reason
-- CrashLoopBackOff or OOMKilled, or if not every role is ready and more than thirty minutes have
-- passed since the creation of the service; else Running if every role is ready; else Initializing.
-- Every role is ready if there is a role status and none has fewer ready replicas than replicas.
pub compute_phase_iff :
    {Q : Type 0} (now : Time) (rbg : Option (RoleBasedGroup Q)) (pdis : PdInferenceService)
    (phase : Phase)
    → (compute_phase now rbg pdis ≡ phase) ↔ PhaseMeans now rbg pdis phase
compute_phase_iff now rbg pdis phase = (
  λ e. subst (PhaseMeans now rbg pdis) e (compute_phase_sound now pdis rbg),
  compute_phase_complete now pdis rbg phase,
)
