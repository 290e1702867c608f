-- ===== src/Core.antt =====
-- crates/flock-core
pub mod Error
pub mod Pool
pub mod Store
pub mod Db
pub mod Staging
pub mod Replica
pub mod Examples
mod DbExamples
mod ReplicaExamples
