-- ===== src/Sync.antt =====
-- crates/flock-sync
pub mod Error
pub mod Shipment
pub mod Source
pub mod Log
pub mod Stream
pub mod Clock
pub mod Replica
pub mod Examples
pub mod ReplicaExamples
mod LiveExamples
