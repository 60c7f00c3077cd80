-- ===== src/Tests.antt =====
-- Runs on small inputs.
pub mod Store
pub mod States
pub mod Plans
pub mod Locks
pub mod Splits
pub mod Settings
pub mod Runs
pub mod Verdicts
