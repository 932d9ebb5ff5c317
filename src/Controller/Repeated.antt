-- ===== src/Controller/Repeated.antt =====
-- `setReadyCondition` repeated.
use pd_manager.Common.{◌≡◌, List, [], ◌∷◌, refl, ap, arith, eq_iff}
use pd_manager.Api.{Time, Condition, PdInferenceServiceStatus}
use pd_manager.Controller.Conditions.{
  ready_type, verdict, new_condition, upsert_ready, set_ready_condition,
}

upsert_ready_twice :
    (first second : Condition) (conditions : List Condition)
    → first.type ≡ ready_type
    → second.status ≡ first.status
    → second.reason ≡ first.reason
    → second.message ≡ first.message
    → upsert_ready second (upsert_ready first conditions) ≡ upsert_ready first conditions
unfolding upsert_ready
upsert_ready_twice first second [] is_ready status reason message =
    ground (arith, eq_iff first.type ready_type, eq_iff first.status second.status)
upsert_ready_twice first second (c ∷ conditions) is_ready status reason message = ground (
  arith,
  eq_iff first.type ready_type,
  eq_iff c.type ready_type,
  eq_iff c.status first.status,
  eq_iff c.status second.status,
  eq_iff first.status second.status,
  upsert_ready_twice first second conditions is_ready status reason message,
)

-- With nothing else changed, a second `setReadyCondition` changes nothing, whatever the time.
pub set_ready_condition_idem :
    (now later : Time) (status : PdInferenceServiceStatus)
    → set_ready_condition later (set_ready_condition now status) ≡ set_ready_condition now status
unfolding set_ready_condition
set_ready_condition_idem now later status =
    let first = new_condition now (verdict status.phase status.last_event) in
    let second = new_condition later (verdict status.phase status.last_event) in
    ap (λ cs. record status { conditions = cs })
      (upsert_ready_twice first second status.conditions refl refl refl refl)
