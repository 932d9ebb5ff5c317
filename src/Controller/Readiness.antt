-- ===== src/Controller/Readiness.antt =====
-- What `setReadyCondition` does to the conditions of a service.
use Prim.Native.Nat.{max}
use mathlib.Core.Option.{some-injective}
use pd_manager.Common.{
  ℕ, suc, ◌≡◌, ◌≢◌, ◌↔◌, not, Option, none, some, List, [], ◌∷◌, refl, sym, ap, ◌∙◌, arith, eq_iff,
  ◌==◌, if◌then◌else◌,
}
use pd_manager.Api.{
  Time, Condition, condition_true, condition_false, condition_unknown, Phase, running, failed,
  other, EventRecord, PdInferenceServiceStatus,
}
use pd_manager.Controller.Conditions.{
  ready_type, failed_verdict, verdict, new_condition, upsert_ready, set_ready_condition,
}

-- The first Ready condition.
abbrev pub find_ready : List Condition → Option Condition
find_ready [] = none
find_ready (c ∷ conditions) = if c.type == ready_type then some c else find_ready conditions

-- The conditions of every other type, in their order.
abbrev other_conditions : List Condition → List Condition
other_conditions [] = []
other_conditions (c ∷ conditions) =
    if c.type == ready_type then other_conditions conditions else c ∷ other_conditions conditions

abbrev ready_count : List Condition → ℕ
ready_count [] = 0
ready_count (c ∷ conditions) =
    if c.type == ready_type then suc (ready_count conditions) else ready_count conditions

-- The Ready condition after an update: new, unless the status stays the same.
abbrev updated : Condition → Option Condition → Condition
updated new_cond none = new_cond
updated new_cond (some c) =
    if not (c.status == new_cond.status)
    then new_cond
    else record c { reason = new_cond.reason; message = new_cond.message }

module _ (new_cond : Condition) (is_ready : new_cond.type ≡ ready_type) where
  find_ready-upsert_ready :
      (conditions : List Condition)
      → find_ready (upsert_ready new_cond conditions)
        ≡ some (updated new_cond (find_ready conditions))
  unfolding upsert_ready
  find_ready-upsert_ready [] = ground (arith, eq_iff new_cond.type ready_type)
  find_ready-upsert_ready (c ∷ conditions) = ground (
    arith,
    eq_iff new_cond.type ready_type,
    eq_iff c.type ready_type,
    eq_iff c.status new_cond.status,
    find_ready-upsert_ready conditions,
  )

  other_conditions-upsert_ready :
      (conditions : List Condition)
      → other_conditions (upsert_ready new_cond conditions) ≡ other_conditions conditions
  unfolding upsert_ready
  other_conditions-upsert_ready [] = ground (arith, eq_iff new_cond.type ready_type)
  other_conditions-upsert_ready (c ∷ conditions) = ground (
    arith,
    eq_iff new_cond.type ready_type,
    eq_iff c.type ready_type,
    eq_iff c.status new_cond.status,
    other_conditions-upsert_ready conditions,
  )

  ready_count-upsert_ready :
      (conditions : List Condition)
      → ready_count (upsert_ready new_cond conditions) ≡ max 1 (ready_count conditions)
  unfolding upsert_ready
  ready_count-upsert_ready [] = ground (arith, eq_iff new_cond.type ready_type)
  ready_count-upsert_ready (c ∷ conditions) = ground (
    arith,
    eq_iff new_cond.type ready_type,
    eq_iff c.type ready_type,
    eq_iff c.status new_cond.status,
    ready_count-upsert_ready conditions,
  )

-- What an update of the Ready condition at the time `now` does to a status.
pub record IsReadyUpdate (now : Time) (before after : PdInferenceServiceStatus) : Type 0 where
  pub ready : Condition
  pub found : find_ready after.conditions ≡ some ready
  pub status : ready.status ≡ (verdict before.phase before.last_event).status
  pub reason : ready.reason ≡ (verdict before.phase before.last_event).reason
  pub message : ready.message ≡ (verdict before.phase before.last_event).message
  pub kept :
      (c : Condition)
      → find_ready before.conditions ≡ some c
      → c.status ≡ ready.status
      → ready.last_transition_time ≡ c.last_transition_time
  pub moved :
      ((c : Condition) → find_ready before.conditions ≡ some c → c.status ≢ ready.status)
      → ready.last_transition_time ≡ now
  pub others : other_conditions after.conditions ≡ other_conditions before.conditions
  pub count : ready_count after.conditions ≡ max 1 (ready_count before.conditions)
  pub rest : after ≡ record before { conditions = after.conditions }

module _ (new_cond : Condition) where
  updated-texts :
      (old : Option Condition)
      → ((updated new_cond old).status ≡ new_cond.status)
        × ((updated new_cond old).reason ≡ new_cond.reason)
        × ((updated new_cond old).message ≡ new_cond.message)
  updated-texts none = (refl, refl, refl)
  updated-texts (some c) = ground (arith, eq_iff c.status new_cond.status)

  updated_kept :
      (old : Option Condition) (c : Condition)
      → old ≡ some c
      → c.status ≡ (updated new_cond old).status
      → (updated new_cond old).last_transition_time ≡ c.last_transition_time
  updated_kept none c e same = cc
  updated_kept (some d) c e same = ground (arith, eq_iff d.status new_cond.status)

  updated_moved :
      (old : Option Condition)
      → ((c : Condition) → old ≡ some c → c.status ≢ (updated new_cond old).status)
      → (updated new_cond old).last_transition_time ≡ new_cond.last_transition_time
  updated_moved none h = refl
  updated_moved (some d) h = ground (arith, eq_iff d.status new_cond.status, h d refl)

-- `setReadyCondition` leaves one Ready condition where there was none, and as many as there were
-- otherwise; the first has the status, reason and message of the phase; its transition time is kept
-- if the status is the one it had, and is `now` otherwise. The conditions of other types and the
-- rest of the status are untouched.
pub set_ready_condition-IsReadyUpdate :
    (now : Time) (before : PdInferenceServiceStatus)
    → IsReadyUpdate now before (set_ready_condition now before)
unfolding set_ready_condition
set_ready_condition-IsReadyUpdate now before =
    let new_cond = new_condition now (verdict before.phase before.last_event) in
    let old = find_ready before.conditions in
    let texts = updated-texts new_cond old in
    record {
      ready = updated new_cond old;
      found = find_ready-upsert_ready new_cond refl before.conditions;
      status = texts.0;
      reason = texts.1;
      message = texts.2;
      kept = updated_kept new_cond old;
      moved = updated_moved new_cond old;
      others = other_conditions-upsert_ready new_cond refl before.conditions;
      count = ready_count-upsert_ready new_cond refl before.conditions;
      rest = refl;
    }

false-ne-true : condition_false ≢ condition_true
false-ne-true = ground (arith, eq_iff condition_false condition_true)

unknown-ne-true : condition_unknown ≢ condition_true
unknown-ne-true = ground (arith, eq_iff condition_unknown condition_true)

failed_verdict-false :
    (event : Option EventRecord) → (failed_verdict event).status ≡ condition_false
failed_verdict-false none = refl
failed_verdict-false (some event) = ground arith

verdict-true_iff :
    (phase : Phase) (event : Option EventRecord)
    → ((verdict phase event).status ≡ condition_true) ↔ (phase ≡ running)
unfolding verdict
verdict-true_iff running event = (λ _. refl, λ _. refl)
verdict-true_iff failed event =
    (λ h. absurd (false-ne-true (sym (failed_verdict-false event) ∙ h)), λ h. absurd (cc))
verdict-true_iff (other text) event = (λ h. absurd (unknown-ne-true h), λ h. absurd (cc))
verdict-true_iff _ event = (λ h. absurd (false-ne-true h), λ h. absurd (cc))

-- After `setReadyCondition` the Ready condition is "True" exactly when the phase is Running.
pub set_ready_condition-true_iff :
    (now : Time) (before : PdInferenceServiceStatus) (c : Condition)
    → find_ready (set_ready_condition now before).conditions ≡ some c
    → (c.status ≡ condition_true) ↔ (before.phase ≡ running)
set_ready_condition-true_iff now before c found =
    let update = set_ready_condition-IsReadyUpdate now before in
    let same : c ≡ update.ready = some-injective _ _ (sym found ∙ update.found) in
    let decided = verdict-true_iff before.phase before.last_event in
    (
      λ t. decided.0 (sym update.status ∙ sym (ap (λ x. x.status) same) ∙ t),
      λ r. ap (λ x. x.status) same ∙ update.status ∙ decided.1 r,
    )
