-- ===== src/Subagents/Verdicts.antt =====
-- src/feather/core/subagents/reaper.py, `_update_task_state`: the run and the task of a child that
-- exited. The reaper is given a task store.
use feather_os.Prelude.{
  ℤ, pos, zero, String, ◌<>◌, Bool, true, false, not, Option, none, some, List, [], ◌∷◌,
  if◌then◌else◌, str_eq, strip, is_empty, any, select, Exec, pure, attempt, if_given, Result, ok,
  err, ◌>>=◌, ◌>>◌,
}
use feather_os.Tasks.Records.{
  Db, Stamp, Task, TaskStatus, TaskOutput, RunStatus, exited, crashed, report, blocked_needs_input,
  completed_with_report, completed_with_artifacts, status_value,
}
use feather_os.Tasks.Events.{get_task}
use feather_os.Tasks.Work.{unset, set, TaskChanges, update_task}
use feather_os.Tasks.Runs.{Ending, finish_run}
use feather_os.Tasks.Outputs.{NewOutput, add_output, list_outputs}
use feather_os.Subagents.Registry.{LiveSubagent}
use feather_os.Subagents.Reports.{Envelope, envelope_status}

-- What the clock and `uuid4` give to the writes.
pub record Draws : Type 0 where
  pub ended_at : String
  pub run_event : Stamp
  pub output_row : Stamp
  pub output_event : Stamp
  pub updated_at : String
  pub task_event : Stamp

abbrev pub text_or_none : String → Option String
text_or_none s = if is_empty s then none else some s

abbrev pub envelope_error : Option Envelope → Option String
envelope_error none = none
envelope_error (some e) = text_or_none e.error

abbrev pub run_status : ℤ → RunStatus
run_status (pos zero) = exited
run_status _ = crashed

abbrev pub is_blocked : TaskStatus → Bool
is_blocked blocked_needs_input = true
is_blocked _ = false

abbrev pub ended_with : TaskStatus → Option String → TaskChanges
ended_with status error = record {
  status = set (some status);
  responsible_agent_name = unset;
  responsible_session_id = unset;
  blocked_question = unset;
  blocked_correlation_id = unset;
  error = set error;
}

abbrev pub note_of : String → TaskStatus → String → String
note_of task_id status more =
    "Task tracking: task_id=" <> task_id <> " status=" <> status_value status <> "." <> more

-- `update_task(task.id, status=…, error=…)` and the note for the parent
abbrev pub conclude : String → TaskStatus → Option String → String → Draws → Exec Db String
conclude task_id status error more x = do
  update_task task_id (ended_with status error) x.updated_at x.task_event
  pure (note_of task_id status more)

-- `output.path` counts where it is neither None nor empty.
abbrev pub has_path : TaskOutput → Bool
has_path o = elim o.path [ none ↦ false | some p ↦ not (is_empty p) ]

abbrev pub final_outputs : String → Db → List TaskOutput
final_outputs task_id db = select (λ (o : TaskOutput). o.is_final) (list_outputs task_id db)

abbrev pub with_outputs : String → List TaskOutput → Draws → Exec Db String
with_outputs task_id finals x =
    conclude task_id
      (if any has_path finals then completed_with_artifacts else completed_with_report) none "" x

abbrev pub captured : LiveSubagent → String → String → NewOutput
captured l task_id assistant_text = record {
  task_id = task_id;
  kind = report;
  path = none;
  content = some assistant_text;
  summary = "Final assistant report captured by sub-agent reaper.";
  created_by_session_id = l.session_id;
  validated = true;
  is_final = true;
}

abbrev pub without_outputs : LiveSubagent → String → String → Draws → Exec Db String
without_outputs l task_id assistant_text x =
    if is_empty assistant_text
    then conclude task_id TaskStatus.failed (some "Sub-agent exited without a final task_output.")
        " The sub-agent exited without a final task_output." x
    else do
      add_output (captured l task_id assistant_text) x.output_row x.output_event
      conclude task_id completed_with_report none "" x

abbrev pub by_outputs : LiveSubagent → String → Envelope → Draws → List TaskOutput → Exec Db String
by_outputs l task_id e x [] = without_outputs l task_id (strip e.assistant_text) x
by_outputs l task_id e x (o ∷ finals) = with_outputs task_id (o ∷ finals) x

-- `error or text`
abbrev pub error_or : Option String → String → String
error_or none text = text
error_or (some error) text = error

abbrev pub by_envelope : LiveSubagent → String → Option Envelope → Draws → Exec Db String
by_envelope l task_id none x =
    conclude task_id TaskStatus.failed (some "Sub-agent exited with no parseable result envelope.")
      "" x
by_envelope l task_id (some e) x =
    if not (str_eq (envelope_status (some e)) "completed")
    then conclude task_id TaskStatus.failed
        (some (
          error_or (envelope_error (some e))
            ("Sub-agent envelope status=" <> envelope_status (some e) <> ".")))
        "" x
    else λ db. by_outputs l task_id e x (final_outputs task_id db) db

abbrev pub after_lookup :
    LiveSubagent → String → Option Envelope → Draws → Result Task → Exec Db String
after_lookup l task_id e x (err missing) = pure ("Task tracking: missing task_id=" <> task_id)
after_lookup l task_id e x (ok task) =
    if is_blocked task.status
    then pure (
        "Task tracking: task_id=" <> task.id
        <> " status=blocked_needs_input. Lead/user input is required before this task can continue.")
    else by_envelope l task.id e x

abbrev pub ending : Option Envelope → ℤ → Ending
ending e returncode = record {
  status = run_status returncode;
  exit_code = some returncode;
  envelope_status = some (envelope_status e);
  error = envelope_error e;
}

abbrev pub track : LiveSubagent → String → Option Envelope → ℤ → Draws → Exec Db String
track l task_id e returncode x = do
  if_given l.task_run_id (λ run. finish_run run (ending e returncode) x.ended_at x.run_event)
  found ← attempt (get_task task_id)
  after_lookup l task_id e x found

abbrev pub track_if_given :
    Option String → LiveSubagent → Option Envelope → ℤ → Draws → Exec Db String
track_if_given none l e returncode x = pure ""
track_if_given (some task_id) l e returncode x = track l task_id e returncode x

unfoldable pub update_task_state : LiveSubagent → Option Envelope → ℤ → Draws → Exec Db String
update_task_state l e returncode x = track_if_given l.task_id l e returncode x
