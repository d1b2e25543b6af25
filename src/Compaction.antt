-- ===== src/Compaction.antt =====
-- The compaction of a session's context: src/feather/core/agent/compaction.py over the session store.
pub mod Compactor
pub mod Outcomes
mod Examples
