-- ===== src/Kafka.antt =====
-- The crate kafka-sink, crates/kafka-sink/src.
pub mod Wire
pub mod Sink
pub mod Records
pub mod Topics
mod Tests
