-- ===== src/Tools/RequestInput.antt =====
-- src/feather/tools/task_tools.py: `execute` of `request_input`, over the tasks and the mailbox. While
-- it waits, others write to both stores: `others` is what they did before a poll, `clock` the time of
-- the loop at a poll. The loop is on fuel; without enough of it, it is still waiting.
use feather_os.Prelude.{
  ℕ, zero, suc, ◌+◌, String, ◌<>◌, Bool, true, Option, none, some, List, [], ◌∷◌, ◌++◌,
  if◌then◌else◌, strip, join, assertion_error, Result, ok, Exec, pure, raise, lift, ◌>>=◌, ◌>>◌,
  leb,
}
use feather_os.Ipc.Json.{Json, Fields, get}
use feather_os.Mailbox.{Message, Store, Outgoing, send, claim_reply}
use feather_os.Tasks.Records
use feather_os.Tasks.Records.{Stamp, Task, TaskStatus, blocked_needs_input}
use feather_os.Tasks.Events.{add_event, or_else}
use feather_os.Tasks.Work.{unset, set, TaskChanges, update_task}
use feather_os.Tools.InputRequests.{shown_or_blank, option_texts, option_lines, default_lines}
use feather_os.Tools.TaskTools.{
  ToolExecutionContext, Python, require_text, resolve_task, or_dash, optional,
}

pub record World : Type 0 where
  pub tasks : Records.Db
  pub mailbox : Store

abbrev pub on_tasks : {A : Type 0} → Exec Records.Db A → Exec World A
on_tasks f w = let (r, tasks) = f w.tasks in (r, record w { tasks = tasks })

abbrev pub on_mailbox : {A : Type 0} → Exec Store A → Exec World A
on_mailbox f w = let (r, mailbox) = f w.mailbox in (r, record w { mailbox = mailbox })

abbrev pub claim :
    (session_id agent_name correlation_id now : String) → World → Option Message × World
claim session_id agent_name correlation_id now w =
    let (reply, mailbox) = claim_reply session_id agent_name correlation_id now w.mailbox in
    (reply, record w { mailbox = mailbox })

pub record Waiting : Type 0 where
  pub others : ℕ → World → World
  pub clock : ℕ → ℕ
  pub stamp : ℕ → String

-- What the loop came to; the timeout is `expired`.
pub data Answer : Type 0 where
  replied : Message → Answer
  expired still_waiting : Answer

abbrev pub after_poll : Option Message → (is_late : Bool) → World → Answer × World → Answer × World
after_poll (some m) is_late u rest = (replied m, u)
after_poll none is_late u rest = if is_late then (expired, u) else rest

-- The polls from the k-th on.
module _ (session_id agent_name correlation_id : String) (d : Waiting) (deadline : ℕ) where
  unfoldable pub poll : (fuel k : ℕ) → World → Answer × World
  poll zero k w = (still_waiting, w)
  poll (suc fuel) k w =
      let (reply, u) = claim session_id agent_name correlation_id (d.stamp k) (d.others k w) in
      let rest = poll fuel (suc k) u in after_poll reply (leb deadline (d.clock k)) u rest

-- `deadline = loop.time() + timeout`, and one poll for each tick up to it is enough.
unfoldable pub wait_for_reply :
    (session_id agent_name correlation_id : String)
    → Waiting
    → (timeout : ℕ) → World
    → Answer × World
wait_for_reply session_id agent_name correlation_id d timeout w =
    poll session_id agent_name correlation_id d (d.clock 0 + timeout) (suc (suc timeout)) 0 w

abbrev pub blocked : String → Option String → TaskChanges
blocked question correlation_id = record {
  status = set (some blocked_needs_input);
  responsible_agent_name = unset;
  responsible_session_id = unset;
  blocked_question = set (some question);
  blocked_correlation_id = set correlation_id;
  error = set none;
}

abbrev pub unblocked : TaskChanges
unblocked = record {
  status = set (some TaskStatus.running);
  responsible_agent_name = unset;
  responsible_session_id = unset;
  blocked_question = set none;
  blocked_correlation_id = set none;
  error = set none;
}

-- The clock and `uuid4` at each write.
pub record Stamps : Type 0 where
  pub sent_at : String
  pub message_id : String
  pub correlation : String
  pub blocked_at : String
  pub blocked_event : Stamp
  pub requested_event : Stamp
  pub running_at : String
  pub running_event : Stamp
  pub ended_event : Stamp

module _ (python : Python) (shown : Json → String) (agent_name : String) (c : ToolExecutionContext)
    (arguments : Fields) where
  abbrev pub input_request : Task → String → List String → String
  input_request t question options = join "\n" (
      ("Task `" <> (t.title <> "` is blocked and needs input."))
      ∷ ("task_id: " <> t.id)
      ∷ ("responsible_session_id: " <> or_dash t.responsible_session_id)
      ∷ ("question: " <> question)
      ∷ ("context: "
          <> or_else (strip (shown_or_blank shown python.nonzero (get "context" arguments))) "-")
      ∷ (option_lines options ++ default_lines (optional python c arguments "default")))

  abbrev pub request : Task → String → Outgoing
  request t body = record {
    from_session_id = c.session_id;
    from_agent_name = agent_name;
    to_session_id = t.lead_session_id;
    to_agent_name = "Lead";
    body = body;
    expects_response = true;
    correlation_id = none;
    in_reply_to = none;
  }

  abbrev pub asserted : Option String → Exec World String
  asserted none = raise assertion_error
  asserted (some s) = pure s

  -- The task runs again, and its timeline says why.
  unfoldable pub resume_task :
      (task_id event_type message output : String) → Stamps → Exec World String
  resume_task task_id event_type message output s = do
    on_tasks (update_task task_id unblocked s.running_at s.running_event)
    on_tasks
        (add_event task_id event_type message (some agent_name) (some c.session_id) s.ended_event)
    pure output

  abbrev pub received : String → String → Message → String
  received task_id correlation_id reply = join "\n" (
      "Input response received; continue the task."
      ∷ ("task_id: " <> task_id)
      ∷ ("correlation_id: " <> correlation_id)
      ∷ ("from: " <> (reply.from_agent_name <> (" " <> reply.from_session_id)))
      ∷ "answer:"
      ∷ reply.body
      ∷ [])

  abbrev pub timed_out : String → String → String → String → String
  timed_out task_id correlation_id question seconds = join "\n" (
      "Input wait timed out; continue the task if safe."
      ∷ ("task_id: " <> task_id)
      ∷ ("correlation_id: " <> correlation_id)
      ∷ ("wait_timeout_seconds: " <> seconds)
      ∷ ("question: " <> question)
      ∷ ("default: " <> or_dash (optional python c arguments "default"))
      ∷ "No Lead/user answer arrived before the timeout. Use the default if provided. If no default is safe, use your best judgment or record a final task_output explaining the blocker."
      ∷ [])

  -- A loop that is still waiting gives no output yet.
  abbrev pub conclude :
      (task_id question correlation_id seconds : String)
      → Stamps
      → Answer × World
      → Result (Option String) × World
  conclude task_id question correlation_id seconds s (replied m, w) =
      (resume_task task_id "input_received" ("Input received for: " <> question)
            (received task_id correlation_id m) s
          >>= λ o. pure (some o))
        w
  conclude task_id question correlation_id seconds s (expired, w) =
      (resume_task task_id "input_timeout" ("Input timed out for: " <> question)
            (timed_out task_id correlation_id question seconds) s
          >>= λ o. pure (some o))
        w
  conclude task_id question correlation_id seconds s (still_waiting, w) = (ok none, w)

  -- Up to the wait: the message goes out and the task is blocked.
  unfoldable pub block_task : Task → String → Stamps → Exec World String
  block_task t question s = do
    asked ← lift (require_text arguments "question")
    options ← lift (option_texts shown python.nonzero (get "options" arguments))
    message ←
        on_mailbox
          (send (request t (input_request t asked options)) s.sent_at s.message_id s.correlation)
    on_tasks
        (update_task t.id (blocked question message.correlation_id) s.blocked_at s.blocked_event)
    on_tasks (
        add_event t.id "input_requested" question (some agent_name) (some c.session_id)
          s.requested_event)
    asserted message.correlation_id

  unfoldable pub request_input :
      (timeout : ℕ) → (seconds : String) → Waiting → Stamps → Exec World (Option String)
  request_input timeout seconds d s = do
    t ← on_tasks (resolve_task c (optional python c arguments "task_id"))
    question ← lift (require_text arguments "question")
    correlation_id ← block_task t question s
    λ w.
        conclude t.id question correlation_id seconds s
          (wait_for_reply c.session_id agent_name correlation_id d timeout w)
