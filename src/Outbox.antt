-- ===== src/Outbox.antt =====
-- src/milhouse/outbox: the files that producers append to.
pub mod Lines
pub mod Ends
pub mod Reader
pub mod Rotation
