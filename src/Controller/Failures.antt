-- ===== src/Controller/Failures.antt =====
-- What a reconciliation leaves when the profile of a service cannot be read.
use pd_manager.Common.{◌≡◌, String, some}
use pd_manager.Platform.{Platform}
use pd_manager.Api.{PdInferenceServiceStatus, failed}

-- A status that reports a failure: of the status before it differs in the phase and the last event
-- alone, so its conditions, role statuses and endpoint are the old ones.
pub record ReportsFailure (reason message : String) (before after : PdInferenceServiceStatus)
    : Type 0 where
  pub phase : after.phase ≡ failed
  pub last_event : after.last_event ≡ some (record { reason = reason; message = message })
  pub conditions : after.conditions ≡ before.conditions
  pub role_statuses : after.role_statuses ≡ before.role_statuses
  pub endpoint : after.endpoint ≡ before.endpoint
