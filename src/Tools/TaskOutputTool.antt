-- ===== src/Tools/TaskOutputTool.antt =====
-- src/feather/tools/task_tools.py: `execute` of `task_output`.
use feather_os.Prelude.{
  String, ◌<>◌, Bool, true, false, not, ◌&&◌, Option, none, some, [], ◌∷◌, if◌then◌else◌, join,
  value_error, key_error, Result, ok, err, Exec, pure, lift, raise_if, ◌>>=◌, ◌>>◌,
}
use feather_os.Ipc.Json.{Json, Fields, get}
use feather_os.Tasks.Records.{
  Db, Stamp, Task, TaskStatus, completed_with_report, completed_with_artifacts,
  completed_without_artifacts, stopped, OutputKind, TaskOutput, kind_value,
}
use feather_os.Tasks.Work.{unset, set, TaskChanges, update_task}
use feather_os.Tasks.Outputs.{NewOutput, is_none, add_output}
use feather_os.Tools.SendMessage.{truth}
use feather_os.Tools.TaskTools.{
  ToolExecutionContext, Python, Files, require_text, resolve_task, or_dash, kind_of, member,
  optional,
}

abbrev pub is_stopped : TaskStatus → Bool
is_stopped stopped = true
is_stopped _ = false

-- `_COMPLETED_STATUSES`
abbrev pub is_completed : TaskStatus → Bool
is_completed completed_with_report = true
is_completed completed_with_artifacts = true
is_completed completed_without_artifacts = true
is_completed _ = false

abbrev pub validate_path : Files → Option String → Bool → Result (Unit {0})
validate_path files (some path) true =
    if not (files.is_inside_root path)
    then err (value_error "Task output path must stay inside the Feather root.")
    else if not (files.exists path)
    then err (value_error ("Validated task output path does not exist: " <> path))
    else ok tt
validate_path files path validated = ok tt

-- `arguments["kind"]`
abbrev pub kind_argument : Python → Option Json → Result OutputKind
kind_argument python none = err (key_error "kind")
kind_argument python (some v) = member python kind_of "TaskOutputKind" v

abbrev pub final_status : Option String → TaskStatus
final_status none = completed_with_report
final_status (some path) = completed_with_artifacts

abbrev pub completion : Option String → TaskChanges
completion path = record {
  status = set (some (final_status path));
  responsible_agent_name = unset;
  responsible_session_id = unset;
  blocked_question = set none;
  blocked_correlation_id = set none;
  error = set none;
}

abbrev pub complete_if_final : String → TaskOutput → (now : String) → Stamp → Exec Db (Unit {0})
complete_if_final task_id o now event =
    if o.is_final then update_task task_id (completion o.path) now event >> pure tt else pure tt

abbrev pub shown_bool : Bool → String
shown_bool true = "True"
shown_bool false = "False"

abbrev pub render_output : String → TaskOutput → String
render_output task_id o = join "\n" (
    "Recorded task output."
    ∷ ("task_id: " <> task_id)
    ∷ ("output_id: " <> o.id)
    ∷ ("kind: " <> kind_value o.kind)
    ∷ ("is_final: " <> shown_bool o.is_final)
    ∷ ("path: " <> or_dash o.path)
    ∷ ("summary: " <> o.summary)
    ∷ [])

module _ (python : Python) (files : Files) (c : ToolExecutionContext) (arguments : Fields) where
  abbrev pub flag : String → Bool
  flag key = truth python.nonzero (get key arguments)

  abbrev pub output_of : String → OutputKind → String → NewOutput
  output_of task_id kind summary = record {
    task_id = task_id;
    kind = kind;
    path = optional python c arguments "path";
    content = optional python c arguments "content";
    summary = summary;
    created_by_session_id = c.session_id;
    validated = flag "validated";
    is_final = flag "is_final";
  }

  abbrev pub refuse_output : Task → Exec Db (Unit {0})
  refuse_output t = do
    raise_if (is_stopped t.status) "Cannot add output to a stopped task."
    raise_if (is_completed t.status && flag "is_final") "Task already has a completed status."
    lift (validate_path files (optional python c arguments "path") (flag "validated"))
    raise_if
        (not (is_none (optional python c arguments "path"))
          && (flag "is_final" && not (flag "validated")))
        "Final artifact outputs must be validated."

  unfoldable pub task_output :
      (row logged : Stamp) → (now : String) → (status_logged : Stamp) → Exec Db String
  task_output row logged now status_logged = do
    t ← resolve_task c (optional python c arguments "task_id")
    refuse_output t
    kind ← lift (kind_argument python (get "kind" arguments))
    summary ← lift (require_text arguments "summary")
    o ← add_output (output_of t.id kind summary) row logged
    complete_if_final t.id o now status_logged
    pure (render_output t.id o)
