-- ===== src/Tests.antt =====
-- Concrete services, profiles and clusters, and runs on them.
pub mod Samples
pub mod Translated
mod Config
pub mod Webhook
mod Translator
mod Status
pub mod Reconciler
mod Runs
mod Rest
mod Serving
mod Stale
mod Startup
mod Copies
