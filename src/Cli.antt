-- ===== src/Cli.antt =====
-- crates/flock-cli
pub mod Error
pub mod Workspace
pub mod Import
pub mod Command
pub mod Tier
mod Examples
pub mod CommandExamples
mod TierExamples
