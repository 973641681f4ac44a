-- ===== src/Examples.antt =====
-- The theorems at concrete inputs, and runs of the operations.
mod Data
mod Clock
mod Leases
mod Cursors
mod Rules
mod Alerting
mod Outbox
mod Audit
mod Spooling
mod Barrier
mod Migrations
mod Identity
