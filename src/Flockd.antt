-- ===== src/Flockd.antt =====
-- crates/flockd: what a database's queries fault (Recording), the set of pages to warm (WarmSet) and
-- the scheduler that remembers it for each database (Scheduler).
pub mod WarmSet
pub mod Recording
pub mod Scheduler
mod Examples
