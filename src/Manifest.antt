-- ===== src/Manifest.antt =====
-- crates/blaze-common/src/manifest.rs: the version list in its binary format.
pub mod Defs
pub mod Reads
pub mod RoundTrip
pub mod Took
pub mod Sound
pub mod Runs
