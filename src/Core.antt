-- ===== src/Core.antt =====
-- The package `milhouse.core`.
pub mod Clock
pub mod Canonical
