-- ===== src/Api.antt =====
-- The resource types of the API group `pdai.pdai.io/v1alpha1`.
pub mod Meta
pub mod Profile
pub mod Service
pub mod Roles
pub use Meta.*
pub use Profile.*
pub use Service.*
pub use Roles.*
