-- ===== src/Kernel.antt =====
-- crates/flock-kernel
pub mod Error
pub mod Paging
pub mod Duck
pub mod Examples
pub mod DuckExamples
