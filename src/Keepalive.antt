-- ===== src/Keepalive.antt =====
-- crates/scheduler/src/keepalive.rs: which addresses of the nodes answer.
pub mod Defs
pub mod States
mod Runs
