-- ===== src/Subagents.antt =====
-- The sub-agents: src/feather/core/subagents/registry.py, the live child processes and the recent
-- exits; src/feather/core/subagents/reaper.py, which reports what became of a child; and
-- src/feather/tools/terminate_agent_tool.py, which ends one.
pub mod Registry
pub mod Graveyard
pub mod Upkeep
pub mod Reports
pub mod Verdicts
pub mod Reaper
pub mod Terminate
pub mod Calls
pub mod Tallies
pub mod Debts
pub mod Ownership
pub mod Concluded
pub mod Settled
pub mod Untouched
mod Examples
