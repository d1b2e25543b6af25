-- ===== src/Tools/Running.antt =====
-- src/feather/tools/task_tools.py: what `request_input` leaves.
use feather_os.Prelude.{
  ℕ, true, String, ◌≡◌, ◌≢◌, refl, sym, subst, clean_optional, ◌∙◌, Option, none, some,
  Option-cases, inl, inr, Result-cases, ok, ◌>>=◌, fetch, bind_pure-state, Exec, pure, In,
}
use feather_os.Ipc.Json.{Json, Fields}
use feather_os.Tasks.Records
use feather_os.Tasks.Records.{Stamp, Task, TaskStatus, task_key}
use feather_os.Tasks.Events.{get_task, add_event}
use feather_os.Tasks.Work.{apply_changes, update_task_fields, update_task, log_status}
use feather_os.Tasks.Updates.{SameAt, touched, refetch, log_status-same, add_event-same}
use feather_os.Tools.TaskTools.{ToolExecutionContext, Python, owns, optional, require_text}
use feather_os.Tools.OwnTasks.{resolve_task-cases}
use feather_os.Tools.Waiting.{IsSleeping, wait_ends}
use feather_os.Tools.RequestInput.{
  World, Waiting, Answer, replied, expired, still_waiting, wait_for_reply, unblocked, Stamps,
  resume_task, conclude, block_task, request_input,
}

-- The row of a task that runs and waits for nothing.
pub record IsRunningAt (task_id : String) (db : Records.Db) : Type 0 where
  pub row : Task
  pub found : fetch task_key task_id db.tasks ≡ some row
  pub status : row.status ≡ TaskStatus.running
  pub question : row.blocked_question ≡ none
  pub correlation : row.blocked_correlation_id ≡ none

SameAt-IsRunningAt :
    (task_id : String) (a b : Records.Db)
    → SameAt task_id a b
    → IsRunningAt task_id a
    → IsRunningAt task_id b
SameAt-IsRunningAt task_id a b s r = record {
  row = r.row;
  found = s.same ∙ r.found;
  status = r.status;
  question = r.question;
  correlation = r.correlation;
}

update_task-unblocks :
    (task_id now : String) (event : Stamp) (db : Records.Db) (u : Task)
    → (update_task task_id unblocked now event db).0 ≡ ok u
    → IsRunningAt task_id (update_task task_id unblocked now event db).1
unfolding update_task get_task update_task_fields clean_optional
update_task-unblocks task_id now event db u h =
    elim (Option-cases (fetch task_key task_id db.tasks)) [
      | inl missing ↦ cc (rw missing at h)
      | inr (t, found) ↦
          let after = touched task_id unblocked now event db in
          let changed = apply_changes unblocked now t in
          let running : IsRunningAt task_id after = record {
            row = changed;
            found = refetch task_id unblocked now event db t found;
            status = refl;
            question = refl;
            correlation = refl;
          } in
          let logged = log_status-same task_id unblocked.status task_id changed event in
          let logs : Exec Records.Db (Unit {0}) =
            log_status unblocked.status task_id changed event in
          let written : (update_task task_id unblocked now event db).1 ≡ (logs after).1 = rw found (
            rw (refetch task_id unblocked now event db t found)
              (bind_pure-state logs changed after)) in
          subst (IsRunningAt task_id) (sym written)
            (SameAt-IsRunningAt task_id after (logs after).1 (logged.at after) running)
    ]

module _ (python : Python) (shown : Json → String) (agent_name : String) (c : ToolExecutionContext)
    (arguments : Fields) where
  resume_task-runs :
      (task_id event_type message output : String) (s : Stamps) (w : World) (o : String)
      → (resume_task python shown agent_name c arguments task_id event_type message output s w).0
        ≡ ok o
      → IsRunningAt task_id
          (resume_task python shown agent_name c arguments task_id event_type message output s
            w).1.tasks
  unfolding resume_task
  resume_task-runs task_id event_type message output s w o h =
      elim (Result-cases (update_task task_id unblocked s.running_at s.running_event w.tasks).0) [
        | inr (e, failed) ↦ cc (rw failed at h)
        | inl (u, went) ↦
            let runs = update_task-unblocks task_id s.running_at s.running_event w.tasks u went in
            let mid = (update_task task_id unblocked s.running_at s.running_event w.tasks).1 in
            let adds =
              add_event task_id event_type message (some agent_name) (some c.session_id)
                s.ended_event in
            let same =
              (add_event-same task_id task_id event_type message (some agent_name)
                  (some c.session_id) s.ended_event).at
                mid in
            elim (Result-cases (adds mid).0) [
              | inr (e, failed) ↦ cc (rw (went, failed) at h)
              | inl (x, added) ↦
                  rw (went, added) (SameAt-IsRunningAt task_id mid (adds mid).1 same runs)
            ]
      ]

  resumed-runs :
      (task_id event_type message output : String) (s : Stamps) (w : World) (x : Option String)
      → ((resume_task python shown agent_name c arguments task_id event_type message output s
            >>= λ o. pure (some o))
          w).0
        ≡ ok x
      → (x ≢ none)
        × IsRunningAt task_id
            ((resume_task python shown agent_name c arguments task_id event_type message output s
                >>= λ o. pure (some o))
              w).1.tasks
  resumed-runs task_id event_type message output s w x h =
      let resumed =
        resume_task python shown agent_name c arguments task_id event_type message output s w in
      elim (Result-cases resumed.0) [
        | inr (e, failed) ↦ cc (rw failed at h)
        | inl (o, went) ↦
            let runs = resume_task-runs task_id event_type message output s w o went in
            let same : ok (some o) ≡ ok x = rw went at h in
            let p : some o ≡ x = cc in (λ e. cc (p, e), rw went runs)
      ]

  -- Where the wait ended, what `request_input` returns is an output, and the task runs.
  conclude-runs :
      (task_id question correlation_id seconds : String) (s : Stamps) (a : Answer) (w : World)
      (x : Option String)
      → a ≢ still_waiting
      → (conclude python shown agent_name c arguments task_id question correlation_id seconds s
          (a, w)).0
        ≡ ok x
      → (x ≢ none)
        × IsRunningAt task_id
            (conclude python shown agent_name c arguments task_id question correlation_id seconds s
              (a, w)).1.tasks
  conclude-runs task_id question correlation_id seconds s (replied m) w x over h =
      resumed-runs task_id _ _ _ s w x h
  conclude-runs task_id question correlation_id seconds s expired w x over h =
      resumed-runs task_id _ _ _ s w x h
  conclude-runs task_id question correlation_id seconds s still_waiting w x over h =
      absurd (over refl)

  -- If `request_input` returns, its wait ended: the task is one of the caller's that was in the store, it
  -- runs, and no question blocks it, whether a reply came or not, and whatever others did to the task
  -- and to the mailbox meanwhile. This is where each sleep lasts as long as it was asked to.
  pub request_input-IsRunning :
      (interval timeout : ℕ) (seconds : String) (d : Waiting) (s : Stamps) (w : World)
      (x : Option String)
      → IsSleeping interval timeout d
      → (request_input python shown agent_name c arguments timeout seconds d s w).0 ≡ ok x
      → (x ≢ none)
        × ((t : Task) × In t w.tasks.tasks
            × (owns c t ≡ true)
            × IsRunningAt t.id
                (request_input python shown agent_name c arguments timeout seconds d s w).1.tasks)
  unfolding request_input
  request_input-IsRunning interval timeout seconds d s w x sleeps h =
      elim (resolve_task-cases c (optional python c arguments "task_id") w.tasks) [
        | inr (e, failed) ↦ cc (rw failed at h)
        | inl (t, found, there, own) ↦ elim (Result-cases (require_text arguments "question")) [
          | inr (e, failed) ↦ cc (rw (found, failed) at h)
          | inl (question, asked) ↦
              let blocking = block_task python shown agent_name c arguments t question s w in
              elim (Result-cases blocking.0) [
                | inr (e, failed) ↦ cc (rw (found, asked, failed) at h)
                | inl (correlation_id, went) ↦
                    let (a, u) =
                      wait_for_reply c.session_id agent_name correlation_id d timeout blocking.1 in
                    let over =
                      wait_ends c.session_id agent_name correlation_id d interval timeout blocking.1
                        sleeps in
                    let (some_output, runs) =
                      conclude-runs t.id question correlation_id seconds s a u x over
                        (rw (found, asked, went) at h) in
                    (some_output, (t, there, own, rw (found, asked, went) runs))
              ]
        ]
      ]
