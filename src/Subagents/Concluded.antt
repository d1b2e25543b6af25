-- ===== src/Subagents/Concluded.antt =====
-- src/feather/core/subagents/reaper.py, `_update_task_state`: the write at its end.
use feather_os.Prelude.{
  String, ◌≡◌, refl, ap, ◌∙◌, Option, some, str_eq_refl, has_key, fetch, fetch-update, update, pure,
  bind_pure-state, Keeps, Keeps-pure, Keeps-bind,
}
use feather_os.Tasks.Records.{Db, Stamp, Task, TaskStatus, task_key}
use feather_os.Tasks.Events.{get_task}
use feather_os.Tasks.Work.{update_task, update_task_fields, apply_changes, log_status, set}
use feather_os.Subagents.Verdicts.{Draws, ended_with, conclude, note_of}
use feather_os.Subagents.Untouched.{SameTables, SameTables-IsPreorder, add_event-SameTables}

log_status-SameTables :
    (status : TaskStatus) (task_id : String) (t : Task) (event : Stamp)
    → Keeps SameTables (log_status (set (some status)) task_id t event)
log_status-SameTables status task_id t event =
    search (SameTables-IsPreorder, Keeps-bind, Keeps-pure, add_event-SameTables)

-- A conclusion writes its status, whether its event can be logged or not.
module _ (task_id : String) (status : TaskStatus) (error : Option String) (more : String)
    (x : Draws) (db : Db) (old : Task) (found : fetch task_key task_id db.tasks ≡ some old) where
  abbrev pub settled : Task
  settled = apply_changes (ended_with status error) x.updated_at old

  abbrev touched : Db
  touched = record db {
    tasks =
        update (has_key task_key task_id) (apply_changes (ended_with status error) x.updated_at)
          db.tasks;
  }

  refetch : fetch task_key task_id touched.tasks ≡ some settled
  refetch =
      fetch-update task_key task_id task_id (apply_changes (ended_with status error) x.updated_at)
        db.tasks (λ t. refl)
      ∙ rw (str_eq_refl task_id) (rw found)

  update_task-tasks :
      (update_task task_id (ended_with status error) x.updated_at x.task_event db).1.tasks
      ≡ touched.tasks
  unfolding update_task get_task update_task_fields
  update_task-tasks = rw found (
      rw refetch
        ((Keeps-bind SameTables-IsPreorder
            (log_status (set (some status)) task_id settled x.task_event) (λ _. pure settled)
            (log_status-SameTables status task_id settled x.task_event)
            (λ _. Keeps-pure SameTables-IsPreorder settled)).at
          touched).tasks)

  pub conclude-row :
      fetch task_key task_id (conclude task_id status error more x db).1.tasks ≡ some settled
  conclude-row =
      ap (λ (s : Db). fetch task_key task_id s.tasks)
        (bind_pure-state (update_task task_id (ended_with status error) x.updated_at x.task_event)
          (note_of task_id status more) db)
      ∙ ap (fetch task_key task_id) update_task-tasks
      ∙ refetch
