-- ===== src/Rest.antt =====
-- internal/apiserver: the REST API that hands requests on to Kubernetes.
mod Http
mod Upstream
mod Services
mod Profiles
mod Routes
pub mod Start
pub mod Serving
pub mod Scaling
pub mod Lifecycle
pub mod Catalog
pub mod Memory
pub mod Matching
pub mod Routing
unfoldable pub use Http.*
unfoldable pub use Upstream.*
unfoldable pub use Services.*
unfoldable pub use Profiles.*
unfoldable pub use Routes.*
