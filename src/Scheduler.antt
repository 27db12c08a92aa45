-- ===== src/Scheduler.antt =====
-- crates/scheduler/src: the data layer, the control service for the nodes and the admin interface.
pub mod Db
pub mod Control
pub mod Admin
pub mod Probes
mod Runs
