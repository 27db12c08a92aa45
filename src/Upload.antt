-- ===== src/Upload.antt =====
-- The upload service of origin/src/server.rs: chunks that a producer streams in, and versions that it
-- commits.
pub mod Defs
pub mod Commit
pub mod Stored
pub mod Streams
pub mod Services
pub mod Publish
pub mod Committed
pub mod Known
mod Runs
