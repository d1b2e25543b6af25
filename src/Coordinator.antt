-- ===== src/Coordinator.antt =====
-- The locks of the runs: src/feather/core/session/coordinator.py.
pub mod Locks
pub mod Entries
pub mod Endings
pub mod Exclusion
mod Examples
