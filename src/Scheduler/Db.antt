-- ===== src/Scheduler/Db.antt =====
-- crates/scheduler/src/db.rs: the records and the tables of the scheduler.
pub mod Records
pub mod Tables
pub mod Accounts
pub mod Laws
pub mod Ledger
pub mod Decimals
pub mod Bindings
pub mod Ids
pub mod Bound
pub mod Places
pub mod Codec
pub mod Memory
mod Runs
