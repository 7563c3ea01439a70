-- ===== src/Transport.antt =====
-- The transport crate, src/crates/bey-transport: its policy engine.
pub mod PolicyEngine
