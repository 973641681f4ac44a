-- ===== src/Spooling.antt =====
-- The package `milhouse.spooling`: the ledger of committed segments, their export and retention.
pub mod Job
pub mod Segment
pub mod Reader
pub mod Writer
pub mod Ledger
pub mod Keeps
pub mod Export
pub mod Agreement
pub mod Retention
pub mod Verify
pub mod Replay
