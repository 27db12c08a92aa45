-- ===== src/Ping.antt =====
-- crates/blaze-common/src/keepalive.rs and crates/agent/src/keepalive.rs: ping and pong datagrams.
pub mod Defs
pub mod Packets
mod Runs
