-- ===== src/Startup.antt =====
-- cmd/main.go: the flags, the options of the servers and the start of the manager.
mod Defs
mod Main
pub mod Options
pub mod Plan
pub mod Needed
pub mod Started
unfoldable pub use Defs.*
unfoldable pub use Main.{Boot, call, exit_if, main}
