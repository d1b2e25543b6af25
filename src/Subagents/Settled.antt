-- ===== src/Subagents/Settled.antt =====
-- src/feather/core/subagents/reaper.py, `_update_task_state`: the status in which the task of a
-- child that exited is left.
use feather_os.Prelude.{
  ℤ, String, ◌≡◌, refl, sym, ap, subst, ◌∙◌, Bool, true, false, not, ◌&&◌, Option, none, some, List,
  [], ◌∷◌, if◌then◌else◌, Bool-cases, inl, inr, str_eq, strip, is_empty, any, any-select,
  any-order_by, select, fetch, fetch-key, pure, attempt, bind-returns, if_given, ok, Keeps,
  Keeps-if_given, ◌>>=◌, ◌>>◌,
}
use feather_os.Tasks.Records.{
  Db, Task, TaskStatus, TaskOutput, task_key, completed_with_report, completed_with_artifacts,
}
use feather_os.Tasks.Events.{get_task}
use feather_os.Tasks.Work.{apply_changes}
use feather_os.Tasks.Runs.{finish_run}
use feather_os.Tasks.Outputs.{add_output, list_outputs, output_order}
use feather_os.Subagents.Registry.{LiveSubagent}
use feather_os.Subagents.Reports.{Envelope, envelope_status}
use feather_os.Subagents.Verdicts.{
  Draws, is_blocked, ended_with, conclude, has_path, final_outputs, captured, by_outputs,
  by_envelope, after_lookup, ending, track, track_if_given, update_task_state,
}
use feather_os.Subagents.Concluded.{conclude-row}
use feather_os.Subagents.Untouched.{
  SameTables, SameTables-IsPreorder, finish_run-SameTables, add_output-SameTasks,
}

-- Whether the task has a final output of a kind.
abbrev pub has_final : String → (TaskOutput → Bool) → List TaskOutput → Bool
has_final task_id p outputs = any (λ o. str_eq o.task_id task_id && (o.is_final && p o)) outputs

abbrev pub anything : TaskOutput → Bool
anything o = true

-- The status that a child's end calls for.
abbrev pub called_for : String → Option Envelope → List TaskOutput → TaskStatus
called_for task_id none outputs = TaskStatus.failed
called_for task_id (some e) outputs =
    if not (str_eq (envelope_status (some e)) "completed")
    then TaskStatus.failed
    else if has_final task_id anything outputs
    then (if has_final task_id has_path outputs
        then completed_with_artifacts
        else completed_with_report)
    else if is_empty (strip e.assistant_text)
    then TaskStatus.failed
    else completed_with_report

any-final_outputs :
    (task_id : String) (p : TaskOutput → Bool) (db : Db)
    → any p (final_outputs task_id db) ≡ has_final task_id p db.outputs
unfolding list_outputs
any-final_outputs task_id p db =
    any-select p (λ (o : TaskOutput). o.is_final) (list_outputs task_id db)
    ∙ any-order_by output_order (λ o. o.is_final && p o)
        (select (λ o. str_eq o.task_id task_id) db.outputs)
    ∙ any-select (λ o. o.is_final && p o) (λ o. str_eq o.task_id task_id) db.outputs

-- The task's row is there with the status.
pub record IsLeft (task_id : String) (status : TaskStatus) (db : Db) : Type 0 where
  pub row : Task
  pub fetched : fetch task_key task_id db.tasks ≡ some row
  pub is : row.status ≡ status

module _ (l : LiveSubagent) (task_id : String) (x : Draws) where
  conclude-IsLeft :
      (status : TaskStatus) (error : Option String) (more : String) (db : Db) (old : Task)
      → fetch task_key task_id db.tasks ≡ some old
      → IsLeft task_id status (conclude task_id status error more x db).1
  conclude-IsLeft status error more db old found = record {
    row = apply_changes (ended_with status error) x.updated_at old;
    fetched = conclude-row task_id status error more x db old found;
    is = refl;
  }

  captured-IsLeft :
      (text note : String) (db : Db) (old : Task)
      → fetch task_key task_id db.tasks ≡ some old
      → ((add_output (captured l task_id text) x.output_row x.output_event
            >> conclude task_id completed_with_report none "" x)
          db).0
        ≡ ok note
      → IsLeft task_id completed_with_report
          ((add_output (captured l task_id text) x.output_row x.output_event
              >> conclude task_id completed_with_report none "" x)
            db).1
  captured-IsLeft text note db old found h =
      let add = add_output (captured l task_id text) x.output_row x.output_event in
      let finish = conclude task_id completed_with_report none "" x in
      let (_, _, same) = bind-returns add (λ _. finish) db note h in
      rw same (
        conclude-IsLeft completed_with_report none "" (add db).1 old (
          ap (fetch task_key task_id)
            ((add_output-SameTasks (captured l task_id text) x.output_row x.output_event).at
              db).tasks
          ∙ found))

  by_outputs-IsLeft :
      (e : Envelope) (finals : List TaskOutput) (note : String) (db : Db) (old : Task)
      → fetch task_key task_id db.tasks ≡ some old
      → any anything finals ≡ has_final task_id anything db.outputs
      → any has_path finals ≡ has_final task_id has_path db.outputs
      → (by_outputs l task_id e x finals db).0 ≡ ok note
      → IsLeft task_id
          (if has_final task_id anything db.outputs
            then (if has_final task_id has_path db.outputs
                then completed_with_artifacts
                else completed_with_report)
            else if is_empty (strip e.assistant_text)
            then TaskStatus.failed
            else completed_with_report)
          (by_outputs l task_id e x finals db).1
  by_outputs-IsLeft e [] note db old found a b h =
      rw (← a) (elim (Bool-cases (is_empty (strip e.assistant_text))) [
        | inl t ↦ rw t (
            conclude-IsLeft TaskStatus.failed _ " The sub-agent exited without a final task_output."
              db old found)
        | inr f ↦ rw f (captured-IsLeft (strip e.assistant_text) note db old found (rw f at h))
      ])
  by_outputs-IsLeft e (o ∷ finals) note db old found a b h =
      rw (← a, ← b)
        (conclude-IsLeft
          (if any has_path (o ∷ finals) then completed_with_artifacts else completed_with_report)
          none "" db old found)

  by_envelope-IsLeft :
      (e : Option Envelope) (note : String) (db : Db) (old : Task)
      → fetch task_key task_id db.tasks ≡ some old
      → (by_envelope l task_id e x db).0 ≡ ok note
      → IsLeft task_id (called_for task_id e db.outputs) (by_envelope l task_id e x db).1
  by_envelope-IsLeft none note db old found h = conclude-IsLeft TaskStatus.failed _ "" db old found
  by_envelope-IsLeft (some e) note db old found h =
      elim (Bool-cases (str_eq (envelope_status (some e)) "completed")) [
        | inl t ↦ rw t (
            by_outputs-IsLeft e (final_outputs task_id db) note db old found
              (any-final_outputs task_id anything db) (any-final_outputs task_id has_path db)
              (rw t at h))
        | inr f ↦ rw f (conclude-IsLeft TaskStatus.failed _ "" db old found)
      ]

  if_given-SameTables :
      (run : Option String) (e : Option Envelope) (code : ℤ)
      → Keeps SameTables (if_given run (λ r. finish_run r (ending e code) x.ended_at x.run_event))
  if_given-SameTables run e code =
      Keeps-if_given SameTables-IsPreorder run
        (λ r. finish_run r (ending e code) x.ended_at x.run_event)
        (λ r. finish_run-SameTables r (ending e code) x.ended_at x.run_event)

  abbrev left_as : Task → Option Envelope → List TaskOutput → TaskStatus
  left_as task e outputs =
      if is_blocked task.status then task.status else called_for task_id e outputs

  unless_blocked-IsLeft :
      (blocked : Bool) (id message : String) (e : Option Envelope) (note : String) (db : Db)
      (task : Task)
      → id ≡ task_id
      → fetch task_key task_id db.tasks ≡ some task
      → ((if blocked then pure message else by_envelope l id e x) db).0 ≡ ok note
      → IsLeft task_id
          (if blocked then task.status else called_for task_id e db.outputs)
          ((if blocked then pure message else by_envelope l id e x) db).1
  unless_blocked-IsLeft true id message e note db task same found h = record {
    row = task;
    fetched = found;
    is = refl;
  }
  unless_blocked-IsLeft false id message e note db task same found h =
      subst
        (λ i.
          (by_envelope l i e x db).0 ≡ ok note
          → IsLeft task_id (called_for task_id e db.outputs) (by_envelope l i e x db).1)
        (sym same) (by_envelope-IsLeft e note db task found) h

  lookup-IsLeft :
      (e : Option Envelope) (note : String) (db : Db) (task : Task)
      → fetch task_key task_id db.tasks ≡ some task
      → ((attempt (get_task task_id) >>= after_lookup l task_id e x) db).0 ≡ ok note
      → IsLeft task_id
          (left_as task e db.outputs)
          ((attempt (get_task task_id) >>= after_lookup l task_id e x) db).1
  unfolding get_task
  lookup-IsLeft e note db task found h = rw found (
      unless_blocked-IsLeft (is_blocked task.status) task.id _ e note db task
        (fetch-key task_key task_id task db.tasks found) found (rw found at h))

  track-IsLeft :
      (e : Option Envelope) (code : ℤ) (note : String) (db : Db) (task : Task)
      → fetch task_key task_id db.tasks ≡ some task
      → (track l task_id e code x db).0 ≡ ok note
      → IsLeft task_id (left_as task e db.outputs) (track l task_id e code x db).1
  track-IsLeft e code note db task found h =
      let close =
        if_given l.task_run_id (λ r. finish_run r (ending e code) x.ended_at x.run_event) in
      let rest = attempt (get_task task_id) >>= after_lookup l task_id e x in
      let kept = (if_given-SameTables l.task_run_id e code).at db in
      let (_, _, same) = bind-returns close (λ _. rest) db note h in
      subst (λ outputs. IsLeft task_id (left_as task e outputs) (track l task_id e code x db).1)
        kept.outputs
        (subst (λ s. IsLeft task_id (left_as task e (close db).1.outputs) s.1) (sym same)
          (lookup-IsLeft e note (close db).1 task (ap (fetch task_key task_id) kept.tasks ∙ found)
            (ap (λ s. s.0) (sym same) ∙ h)))

-- `_update_task_state` of a child whose task is in the store, where it returns without an error:
-- afterwards the task's row has one status only. A task blocked on input is left in its status. Any other is failed
-- without an envelope or with one whose status is not "completed"; with a completed one it is
-- completed_with_artifacts or completed_with_report where final outputs are there, by whether one of
-- them has a path, and without any it is completed_with_report if the final text is not blank and
-- failed if it is.
pub update_task_state_lem :
    (l : LiveSubagent) (task_id : String) (e : Option Envelope) (code : ℤ) (x : Draws)
    (note : String) (db : Db) (task : Task)
    → l.task_id ≡ some task_id
    → fetch task_key task_id db.tasks ≡ some task
    → (update_task_state l e code x db).0 ≡ ok note
    → IsLeft task_id
        (if is_blocked task.status then task.status else called_for task_id e db.outputs)
        (update_task_state l e code x db).1
unfolding update_task_state
update_task_state_lem l task_id e code x note db task given found h =
    subst
      (λ t.
        (track_if_given t l e code x db).0 ≡ ok note
        → IsLeft task_id
            (if is_blocked task.status then task.status else called_for task_id e db.outputs)
            (track_if_given t l e code x db).1)
      (sym given) (track-IsLeft l task_id x e code note db task found) h
