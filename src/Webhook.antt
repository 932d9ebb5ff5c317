-- ===== src/Webhook.antt =====
-- internal/webhook/v1alpha1/pdinferenceservice_webhook.go: defaulting and validation at admission.
mod Field
mod Defaults
mod Create
mod Update
pub mod Defined
pub mod Mounts
pub mod Admission
pub mod Changes
unfoldable pub use Field.*
unfoldable pub use Defaults.*
unfoldable pub use Create.*
unfoldable pub use Update.*
