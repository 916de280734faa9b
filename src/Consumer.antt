-- ===== src/Consumer.antt =====
-- consumer/main.go: the Kafka consumer that writes the telemetry tables, and their cleanup.
pub mod Batch
pub mod Dynamic
pub mod Entries
pub mod Interface
pub mod Vlan
pub mod Claim
pub mod Cleanup
mod Tests
