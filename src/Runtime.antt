-- ===== src/Runtime.antt =====
-- The crate runtime, crates/runtime/src.
pub mod Handler
pub mod Dispatch
pub mod Instruction
pub mod Buffer
mod Tests
