-- ===== src/Translator.antt =====
-- internal/translator/rbg_builder.go: the translation of a PDInferenceService into a
-- RoleBasedGroup. `parse_quantity` is `resource.ParseQuantity`; `none` as a result is the panic of
-- `resource.MustParse`.
mod Volumes
mod Resources
mod Probes
mod Runtimes
mod Build
pub mod Totality
pub mod Quantities
pub mod Order
pub mod Sidecars
pub mod Health
pub mod Sources
pub mod Contract
pub mod Shape
unfoldable pub use Volumes.*
unfoldable pub use Resources.*
unfoldable pub use Probes.*
unfoldable pub use Runtimes.*
unfoldable pub use Build.*
