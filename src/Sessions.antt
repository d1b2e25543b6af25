-- ===== src/Sessions.antt =====
-- The session store: src/feather/storage/session_store.py, with its sessions, messages and
-- attachments.
pub mod Records
pub mod State
pub mod Messages
pub mod Windows
pub mod Sequences
pub mod History
pub mod Context
pub mod Appending
pub mod Rendering
pub mod Batches
pub mod Summaries
mod Examples
