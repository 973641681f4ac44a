-- ===== src/Python.antt =====
-- Values of the host language that the program receives from its callers, and how it fails.
pub mod Datetime
pub mod Value
pub mod Outcome
pub mod Patterns
