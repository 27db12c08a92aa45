-- ===== src/Scheduler/Control.antt =====
-- crates/scheduler/src/server.rs: the control service for the nodes.
pub mod Types
pub mod Defs
pub mod Versions
pub mod Peers
pub mod Heartbeats
