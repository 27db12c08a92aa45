-- ===== src/Scheduler/Probes.antt =====
-- crates/scheduler/src/keepalive.rs, `run`: the loop that probes the nodes.
pub mod Defs
pub mod Pongs
pub mod Turns
pub mod Pings
mod Runs
