-- ===== src/Merge.antt =====
-- The merge of an update into the directory of a game, agent/src/update.rs.
pub mod Defs
pub mod Files
pub mod Updated
pub mod Versions
pub mod Merged
pub mod Suffix
pub mod Temps
pub mod Hexes
pub mod Scanned
mod TempRuns
mod Runs
