-- ===== src/Tools.antt =====
-- The tools that act on several stores at once: src/feather/tools.
pub mod SendMessage
pub mod Sending
pub mod TaskTools
pub mod TaskOutputTool
pub mod OwnTasks
pub mod RequestInput
pub mod InputRequests
pub mod TaskListTool
pub mod TaskCreateTool
pub mod TaskGetTool
pub mod Visibility
pub mod Waiting
pub mod Running
mod TaskExamples
mod Examples
