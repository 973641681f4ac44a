-- ===== src/Runtime.antt =====
-- The package `milhouse.runtime`.
pub mod Alerting
