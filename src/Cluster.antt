-- ===== src/Cluster.antt =====
-- The Kubernetes API as the reconciler uses it, and a server in memory that keeps its laws.
mod Defs
pub mod Keyed
pub mod Store
pub use Defs.*
