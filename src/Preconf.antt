-- ===== src/Preconf.antt =====
-- The preconfirmation source, crates/preconf-source/src.
pub mod Convert
pub mod Feed
pub mod Framer
pub mod Reconnect
mod Tests
