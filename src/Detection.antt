-- ===== src/Detection.antt =====
-- src/reliamesh/detection.py: bounded, deterministic detection for one tenant.
pub mod State
pub mod Stats
pub mod Signals
pub mod Prune
pub mod Process
pub mod Batch
pub mod Steps
pub mod Shapes
pub mod Rows
pub mod Labels
pub mod Order
pub mod Windows
pub mod Replay
pub mod Invariant
pub mod Counting
pub mod Memory
pub mod Summary
pub mod Reads
