-- ===== src/Net/Engine.antt =====
-- The transport engine, src/crates/bey-net/src/engine.rs.
pub mod Session
pub mod Crypto
pub mod Sending
pub mod Receiving
pub mod Devices
