-- ===== src/Scheduler/Admin.antt =====
-- crates/scheduler/src/http.rs: the admin interface.
pub mod Defs
pub mod Removal
pub mod Accounts
pub mod Cancel
pub mod Assign
mod Runs
pub mod Ids
