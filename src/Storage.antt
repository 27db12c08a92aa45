-- ===== src/Storage.antt =====
-- crates/origin/src/storage.rs: the chunk store of a game.
pub mod Files
pub mod Loops
pub mod Writes
pub mod Defs
pub mod Keys
pub mod Append
pub mod Reads
pub mod Abstract
pub mod Open
pub mod Sessions
pub mod Batch
pub mod Runs
