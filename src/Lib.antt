-- ===== src/Lib.antt =====
-- Feather runs agents that exchange messages, work on tasks, and are woken by scheduled prompts;
-- its state lives in SQLite tables. This library models the stores and queues that carry that
-- state and the background work that moves it.
--
-- Mailbox models src/feather/storage/agent_message_store.py: `send`, `inbox`, `mark_delivered`,
-- `get_by_correlation` and `claim_reply` are the methods of AgentMessageStore, each one
-- transaction on a list of rows in the order of insertion. Tasks models
-- src/feather/storage/task_store.py in the same way: plans, tasks, runs, outputs and the event
-- timeline. Inputs models src/feather/core/session/input_queue.py. Cron models
-- src/feather/storage/cron_store.py (Records, Schedules, Jobs, Edits) and
-- src/feather/core/scheduling/cron_scheduler.py (Scheduler: one call of `run_pending` alone;
-- Ticks: several calls at once). The scheduler writes to the table of the jobs and to the mailbox
-- of the agent. Subagents models src/feather/core/subagents/registry.py (Registry), a pass of
-- src/feather/core/subagents/reaper.py with `extract_envelope` of
-- src/feather/tools/spawn_agent_tool.py (Reports, Verdicts, Reaper), `execute` of
-- src/feather/tools/terminate_agent_tool.py (Terminate), and any number of both at once as steps
-- (Calls, with Tallies, Debts and Ownership).
-- The reaper writes to the registry, to the tasks and to the mailbox. Ipc models
-- src/feather/core/ipc/command_codec.py (Commands) and src/feather/core/ipc/event_codec.py
-- (Events): the lines between the supervisor of a lead and its worker. Sessions models
-- src/feather/storage/session_store.py: the row of a session (State), its messages and attachments
-- (Messages), the queries for the context window and for the memory (Windows), and the renderings
-- (Rendering). Compaction models src/feather/core/agent/compaction.py, which asks a provider for a
-- summary of a session and stores it (Compactor). Coordinator models
-- src/feather/core/session/coordinator.py, the lock of each session, with its calls as steps
-- (Locks). Tools models src/feather/tools/send_message_tool.py (SendMessage), which asks the
-- sessions and the registry before it writes to the mailbox, and of
-- src/feather/tools/task_tools.py `task_create` (TaskCreateTool), `task_list` (TaskListTool),
-- `task_get` (TaskGetTool), `task_update` (TaskTools), `task_output` (TaskOutputTool) and
-- `request_input` (RequestInput, InputRequests), over the tasks and, for the last, the mailbox.
-- Memory models src/feather/memory/tokenizer.py (Tokenizer) and src/feather/memory/chunker.py
-- (Chunker), which cut the texts to embed into pieces. Messaging models
-- src/feather/messaging/store.py with src/feather/messaging/models.py (Store) and the handlers of
-- src/feather/messaging/router.py as steps (Router), where `is_session_busy` is assumed to answer
-- without suspending, as the callable of src/feather/runtime/root.py does; a handler queues a text
-- in the queue of Inputs. Prelude holds the shared parts: tests, lists, tables with keys, sorting and queries,
-- text, and methods that write to a store and may raise (Effects).
--
-- A function takes what the clock and `uuid4` gave as arguments, so every statement holds for all
-- times and ids. Texts are lists of characters; text is ordered by code points, as SQLite's BINARY
-- collation orders it. A method that raises returns an error beside the store that it left. Loops
-- are recursions on lists, but for three on fuel. The two outer loops of the chunker have one unit
-- for each word or token and one more; the wait of `request_input` has one for each tick of its
-- timeout and two more, where a sleep lasts at least a tick. They end within it. Python's datetime
-- and zoneinfo, croniter and SQLite's LOWER are the record Platform, a parameter; what a theorem
-- needs of them is a hypothesis of its own, IsMonotone, which a concrete platform meets. Event
-- handlers of the scheduler are functions that may raise. Python's json is the parameter
-- JsonLibrary of Ipc, and `json.loads` a parameter of the reaper. The model provider, the floats
-- and the event handler are parameters of Compaction, and the provider's answer comes with
-- whatever others wrote meanwhile.
--
-- Not modelled: logging, the start and stop of background tasks, which only drive asyncio, the
-- terminal interface, the HTTP interface, the model providers and the agent loop around them, the
-- task tools that stop and resume a process, the other tools, the extraction and the recall of
-- memories, the messaging adapters and their credentials, and the configuration. The encoding of
-- tiktoken is a parameter of Memory.
pub mod Prelude
pub mod Mailbox
pub mod Tasks
pub mod Inputs
pub mod Ipc
pub mod Compaction
pub mod Coordinator
pub mod Cron
pub mod Subagents
pub mod Sessions
pub mod Memory
pub mod Messaging
pub mod Tools
