-- ===== src/Tasks.antt =====
-- src/feather/storage/task_store.py: plans, tasks, the runs of a task, its outputs and its events.
-- `Records` has the rows and the five tables, `Events`, `Plans`, `Work`, `Runs` and `Outputs` the
-- operations of each table, and the other modules what holds of them.
pub mod Records
pub mod Events
pub mod Plans
pub mod Work
pub mod Runs
pub mod Outputs
pub mod Growth
pub mod History
pub mod Updates
pub mod Creation
pub mod Queries
mod Examples
