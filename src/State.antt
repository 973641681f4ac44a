-- ===== src/State.antt =====
-- The package `milhouse.state`: the SQLite control plane.
pub mod Errors
pub mod Table
pub mod Schema
pub mod Validate
pub mod Database
pub mod Leases
pub mod Cursors
pub mod Derivation
pub mod AlertState
pub mod Audit
pub mod Barrier
pub mod Migrations
