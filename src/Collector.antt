-- ===== src/Collector.antt =====
-- collector/main.go: the gRPC server that parses Cisco telemetry and publishes it to Kafka.
pub mod Entries
pub mod IfName
pub mod Publish
pub mod Leaves
pub mod Mac
pub mod Arp
pub mod Nested
pub mod Mask
pub mod Fallback
pub mod Vlan
pub mod Walk
pub mod ConnLog
pub mod Iface
pub mod Stream
mod Tests
