-- ===== src/BlockCoordinator.antt =====
-- crates/block-coordinator: the slot-ordered flush of parsed records.
pub mod Types
pub mod Keys
pub mod Buffer
pub mod State
pub mod Drain
pub mod Cases
pub mod Valid
pub mod Frontier
pub mod Flush
pub mod Boundary
pub mod Coordinator
pub mod Gates
pub mod Accounts
pub mod Stall
mod Tests
