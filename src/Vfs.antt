-- ===== src/Vfs.antt =====
-- crates/flock-vfs
pub mod Error
pub mod Source
pub mod Read
pub mod Tiered
pub mod Backend
pub mod Ffi
mod Examples
mod TieredExamples
