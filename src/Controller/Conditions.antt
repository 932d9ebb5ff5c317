-- ===== src/Controller/Conditions.antt =====
-- internal/controller/status.go: the Ready condition.
use pd_manager.Common.{String, Option, none, some, List, [], ◌∷◌, pos, not, ◌==◌, if◌then◌else◌}
use pd_manager.Api.{
  Time, Condition, condition_true, condition_false, condition_unknown, Phase, pending, initializing,
  running, failed, terminating, other, EventRecord, PdInferenceServiceStatus,
}

abbrev pub ready_type : String
ready_type = "Ready"

-- What the `switch` of `setReadyCondition` decides.
pub record Verdict : Type 0 where
  pub status : String
  pub reason : String
  pub message : String

-- The reason of a failure is that of the last event, where one is recorded.
abbrev pub failed_verdict : Option EventRecord → Verdict
failed_verdict none = record {
  status = condition_false;
  reason = "ServiceFailed";
  message = "Service has entered a failed state";
}
failed_verdict (some event) =
    if event.reason == ""
    then record {
      status = condition_false;
      reason = "ServiceFailed";
      message = "Service has entered a failed state";
    }
    else record { status = condition_false; reason = event.reason; message = event.message }

unfoldable pub verdict : Phase → Option EventRecord → Verdict
verdict running last_event = record {
  status = condition_true;
  reason = "AllRolesReady";
  message = "All roles are ready";
}
verdict failed last_event = failed_verdict last_event
verdict initializing last_event = record {
  status = condition_false;
  reason = "Initializing";
  message = "Service is initializing";
}
verdict pending last_event = record {
  status = condition_false;
  reason = "Pending";
  message = "Service is pending";
}
verdict terminating last_event = record {
  status = condition_false;
  reason = "Terminating";
  message = "Service is terminating";
}
verdict (other phase) last_event = record {
  status = condition_unknown;
  reason = "Unknown";
  message = "Service state is unknown";
}

abbrev pub new_condition : Time → Verdict → Condition
new_condition now v = record {
  type = ready_type;
  status = v.status;
  observed_generation = pos 0;
  last_transition_time = now;
  reason = v.reason;
  message = v.message;
}

-- The loop that updates the first Ready condition, or appends one.
unfoldable pub upsert_ready : Condition → List Condition → List Condition
upsert_ready new_cond [] = new_cond ∷ []
upsert_ready new_cond (c ∷ conditions) =
    if c.type == ready_type
    then (if not (c.status == new_cond.status)
        then new_cond ∷ conditions
        else record c { reason = new_cond.reason; message = new_cond.message } ∷ conditions)
    else c ∷ upsert_ready new_cond conditions

-- `setReadyCondition` on the status of the service, at the time `now`
unfoldable pub set_ready_condition : Time → PdInferenceServiceStatus → PdInferenceServiceStatus
unfolding verdict upsert_ready
set_ready_condition now status = record status {
  conditions =
      upsert_ready (new_condition now (verdict status.phase status.last_event)) status.conditions;
}
