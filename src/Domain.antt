-- ===== src/Domain.antt =====
-- The package `milhouse.domain`.
pub mod Identity
