-- ===== src/Ipc.antt =====
-- The lines between the supervisor of a lead and its worker: src/feather/core/ipc/command_codec.py and
-- src/feather/core/ipc/event_codec.py.
pub mod Json
pub mod Commands
pub mod Events
pub mod Readings
pub mod Grammar
pub mod Roundtrip
mod Examples
