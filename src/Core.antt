-- ===== src/Core.antt =====
-- The crate core, crates/core/src.
pub mod Lines
pub mod Logs
pub mod Paths
pub mod Prefilter
pub mod Split
pub mod Trees
mod Tests
