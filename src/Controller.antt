-- ===== src/Controller.antt =====
-- internal/controller: the reconciler of PDInferenceService and the aggregation of its status.
mod Status
mod Conditions
pub mod Action
mod Reconcile
pub mod Meaning
pub mod Phases
pub mod Readiness
pub mod Repeated
pub mod Finalizers
pub mod Groups
pub mod Applied
pub mod Convergence
pub mod Truth
pub mod Ordering
pub mod Profiles
pub mod Runs
pub mod Stability
pub mod Trace
pub mod Protocol
pub mod Failures
pub mod Progress
unfoldable pub use Status.*
unfoldable pub use Conditions.*
unfoldable pub use Reconcile.*
