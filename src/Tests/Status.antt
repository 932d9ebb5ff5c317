-- ===== src/Tests/Status.antt =====
-- The phase and the Ready condition, on concrete services.
use pd_manager.Common.{◌≡◌, ◌↔◌, pos, String, some, [], ◌∷◌, refl}
use pd_manager.Api.{Condition, condition_true, running, initializing, PdInferenceServiceStatus}
use pd_manager.Workload.{RoleBasedGroup}
use pd_manager.Controller.{
  compute_phase, all_roles_ready, has_crash_loop, is_initializing_too_long, set_ready_condition,
  verdict, upsert_ready,
}
use pd_manager.Controller.Meaning.{PhaseMeans}
use pd_manager.Controller.Phases.{compute_phase_iff}
use pd_manager.Controller.Repeated.{set_ready_condition_idem}
use pd_manager.Controller.Readiness.{
  find_ready, IsReadyUpdate, set_ready_condition-IsReadyUpdate, set_ready_condition-true_iff,
}
use pd_manager.Tests.Samples.{inline_service}
use pd_manager.Tests.Translated.{inline_group}

-- The group, with a prefill instance that is not ready.
abbrev starting_group : RoleBasedGroup String
starting_group = record inline_group {
  status = record {
    conditions = [];
    role_statuses = record { name = "prefill"; ready_replicas = pos 1; replicas = pos 2 } ∷ [];
  };
}

starting : compute_phase 5_000 (some starting_group) inline_service ≡ initializing
unfolding compute_phase has_crash_loop is_initializing_too_long all_roles_ready
starting = refl

compute_phase_iff_example :
    (compute_phase 5_000 (some starting_group) inline_service ≡ initializing)
    ↔ PhaseMeans 5_000 (some starting_group) inline_service initializing
compute_phase_iff_example =
    compute_phase_iff 5_000 (some starting_group) inline_service initializing

-- A service that has just become ready.
abbrev old_ready : Condition
old_ready = record {
  type = "Ready";
  status = "False";
  observed_generation = pos 0;
  last_transition_time = 1_000;
  reason = "Initializing";
  message = "Service is initializing";
}

abbrev running_status : PdInferenceServiceStatus
running_status = record (inline_service.status) { phase = running; conditions = old_ready ∷ [] }

abbrev new_ready : Condition
new_ready = record {
  type = "Ready";
  status = "True";
  observed_generation = pos 0;
  last_transition_time = 5_000;
  reason = "AllRolesReady";
  message = "All roles are ready";
}

set_ready_condition-IsReadyUpdate_example :
    IsReadyUpdate 5_000 running_status (set_ready_condition 5_000 running_status)
set_ready_condition-IsReadyUpdate_example = set_ready_condition-IsReadyUpdate 5_000 running_status

found_ready : find_ready (set_ready_condition 5_000 running_status).conditions ≡ some new_ready
unfolding set_ready_condition upsert_ready verdict
found_ready = refl

set_ready_condition-true_iff_example :
    (new_ready.status ≡ condition_true) ↔ (running_status.phase ≡ running)
set_ready_condition-true_iff_example =
    set_ready_condition-true_iff 5_000 running_status new_ready found_ready

set_ready_condition_idem_example :
    set_ready_condition 9_000 (set_ready_condition 5_000 running_status)
    ≡ set_ready_condition 5_000 running_status
set_ready_condition_idem_example = set_ready_condition_idem 5_000 9_000 running_status
