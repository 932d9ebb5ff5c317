-- ===== src/DeepCopy.antt =====
-- The deep copies of the API types (api/v1alpha1/zz_generated.deepcopy.go).
mod Entries
pub mod Alloc
pub mod Views
pub mod Library
pub mod Flat
pub mod Runtimes
pub mod Parts
pub mod Defaults
pub mod Roles
pub mod Specs
pub mod Services
pub mod Profiles
pub mod Separate
pub mod Objects
