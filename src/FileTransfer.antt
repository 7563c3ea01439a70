-- ===== src/FileTransfer.antt =====
-- The file transfer crate, src/crates/bey-file-transfer: its transfer queue and the tracker of
-- progress.
pub mod TransferQueue
pub mod ProgressTracker
