-- ===== src/Messaging.antt =====
-- The messages of chat platforms: src/feather/messaging/store.py, the claims and the mapping of chats
-- to sessions, and src/feather/messaging/router.py, whose handlers run at once.
pub mod Store
pub mod Router
pub mod Serial
pub mod Claims
pub mod Orphans
mod Examples
