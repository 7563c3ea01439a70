-- ===== src/Storage.antt =====
-- Persistent storage (src/crates/bey-storage/src).
pub mod Clipboard
