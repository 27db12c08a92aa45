-- ===== src/Cafe.antt =====
-- The chunks that a cafe node serves out of its game files, agent/src/cafe_store.rs.
pub mod Defs
pub mod Placed
pub mod Served
pub mod Cleaned
mod Runs
