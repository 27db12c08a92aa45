-- ===== src/Transfer.antt =====
-- The transfer of chunks between two nodes: the serving side of origin/src/datapath.rs and the asking
-- side of agent/src/fetch.rs, over the bytes of one stream in each direction.
pub mod Frames
pub mod Serve
pub mod Fetch
pub mod Turns
pub mod Fetched
pub mod Settled
pub mod Answered
pub mod Runs
