-- ===== src/Plugin.antt =====
-- The plugin system, src/crates/bey-plugin/src.
pub mod EventBus
pub mod Hooks
pub mod Entry
pub mod Dependencies
pub mod Manager
mod Tests
