-- ===== src/Tests.antt =====
-- The theorems at concrete inputs.
pub mod Compile
pub mod Verdicts
pub mod Policies
pub mod Devpi
pub mod Queries
pub mod Summary
pub mod Scope
