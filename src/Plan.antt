-- ===== src/Plan.antt =====
-- crates/blaze-common/src/update_plan.rs: what changes between two versions of a game.
pub mod Defs
pub mod Chunks
pub mod Files
mod Runs
