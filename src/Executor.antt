-- ===== src/Executor.antt =====
-- The executor of tasks of agent/src/executor.rs: the download of missing chunks from several sources.
pub mod Defs
pub mod Rounds
pub mod Groups
pub mod Complete
pub mod Kept
pub mod Delivered
pub mod Blocked
mod Runs
