-- ===== src/Cron.antt =====
-- The scheduled prompts: src/feather/storage/cron_store.py, their table, and
-- src/feather/core/scheduling/cron_scheduler.py, which delivers the due ones to the mailbox of the
-- agent.
pub mod Records
pub mod Schedules
pub mod Jobs
pub mod Edits
pub mod Scheduler
pub mod Due
pub mod History
mod Examples
pub mod Passes
pub mod Outcomes
pub mod Progress
pub mod Starvation
pub mod Exclusion
pub mod Ticks
pub mod Bystanders
