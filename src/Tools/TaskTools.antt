-- ===== src/Tools/TaskTools.antt =====
-- src/feather/tools/task_tools.py: which task a call is about, and `execute` of `task_update` and
-- `task_output`. `lower` is `str.lower`, `repr` is `repr`, `nonzero` the truth of a float; the file
-- system says of a path whether it stays inside the root and whether it exists.
use feather_os.Prelude.{
  String, ◌<>◌, Bool, false, not, ◌||◌, Option, none, some, [], ◌∷◌, if◌then◌else◌, str_eq, strip,
  is_empty, join, value_error, Result, ok, err, Exec, pure, raise, lift, raise_if, ◌>>=◌, ◌>>◌,
}
use feather_os.Ipc.Json.{Json, null, text, Fields, get, and_then}
use feather_os.Tasks.Records.{
  Db, Stamp, Task, TaskStatus, queued, blocked_needs_input, completed_with_report,
  completed_with_artifacts, completed_without_artifacts, stopped, OutputKind, report, artifact,
  source, log, status_value,
}
use feather_os.Tasks.Events.{get_task, or_else}
use feather_os.Tasks.Work.{Change, unset, set, TaskChanges, find_task_by_session, update_task}

-- The fields of ToolExecutionContext that the tools read.
pub record ToolExecutionContext : Type 0 where
  pub session_id : String
  pub is_lead : Bool

pub record Python : Type 0 where
  pub lower : String → String
  pub repr : Json → String
  pub nonzero : String → Bool

pub record Files : Type 0 where
  pub is_inside_root : String → Bool
  pub exists : String → Bool

abbrev pub unless_null : (String → String) → String → Option String
unless_null lower stripped =
    if is_empty stripped
    then none
    else if str_eq (lower stripped) "null" || str_eq (lower stripped) "none"
    then none
    else some stripped

unfoldable pub optional_str : (String → String) → Option Json → Option String
optional_str lower (some (text value)) = unless_null lower (strip value)
optional_str lower _ = none

abbrev pub unless_blank : String → String → Result String
unless_blank key value =
    if is_empty (strip value)
    then err (value_error ("`" <> (key <> "` must be a non-empty string.")))
    else ok (strip value)

unfoldable pub require_text : Fields → String → Result String
require_text arguments key = elim (get key arguments) [
  | some (text value) ↦ unless_blank key value
  | _ ↦ err (value_error ("`" <> (key <> "` must be a non-empty string.")))
]

abbrev pub is_responsible : String → Option String → Bool
is_responsible session_id none = false
is_responsible session_id (some s) = str_eq s session_id

-- Whose task it is: that of the lead that planned it, or of the session that works on it.
abbrev pub owns : ToolExecutionContext → Task → Bool
owns c t =
    if c.is_lead
    then str_eq t.lead_session_id c.session_id
    else is_responsible c.session_id t.responsible_session_id

abbrev pub refusal : ToolExecutionContext → String
refusal c =
    if c.is_lead
    then "Task does not belong to the current lead session."
    else "Task is not assigned to the current agent session."

abbrev pub current_task : Option Task → Exec Db Task
current_task none = raise (value_error "No current task is assigned to this session.")
current_task (some t) = pure t

abbrev pub look_up : ToolExecutionContext → Option String → Exec Db Task
look_up c none db = current_task (find_task_by_session c.session_id db) db
look_up c (some task_id) db = get_task task_id db

unfoldable pub resolve_task : ToolExecutionContext → Option String → Exec Db Task
resolve_task c task_id = do t ← look_up c task_id; raise_if (not (owns c t)) (refusal c); pure t

abbrev pub or_dash : Option String → String
or_dash none = "-"
or_dash (some s) = or_else s "-"

abbrev pub render_task : String → Task → String
render_task prefix t = join "\n" (
    (prefix <> ".")
    ∷ ("id: " <> t.id)
    ∷ ("title: " <> t.title)
    ∷ ("status: " <> status_value t.status)
    ∷ ("plan_id: " <> or_dash t.plan_id)
    ∷ ("lead_session_id: " <> t.lead_session_id)
    ∷ ("responsible: "
        <> (or_dash t.responsible_agent_name <> (" " <> or_dash t.responsible_session_id)))
    ∷ ("required_outputs: " <> or_else (join ", " t.required_outputs) "-")
    ∷ ("blocked_question: " <> or_dash t.blocked_question)
    ∷ ("error: " <> or_dash t.error)
    ∷ [])

-- `TaskStatus(value)`
abbrev pub status_of : String → Option TaskStatus
status_of s =
    if str_eq s "queued"
    then some queued
    else if str_eq s "running"
    then some TaskStatus.running
    else if str_eq s "blocked_needs_input"
    then some blocked_needs_input
    else if str_eq s "completed_with_report"
    then some completed_with_report
    else if str_eq s "completed_with_artifacts"
    then some completed_with_artifacts
    else if str_eq s "completed_without_artifacts"
    then some completed_without_artifacts
    else if str_eq s "failed"
    then some TaskStatus.failed
    else if str_eq s "stopped"
    then some stopped
    else none

abbrev pub kind_of : String → Option OutputKind
kind_of s =
    if str_eq s "report"
    then some report
    else if str_eq s "artifact"
    then some artifact
    else if str_eq s "source"
    then some source
    else if str_eq s "log"
    then some log
    else none

abbrev pub member_or : {A : Type 0} → Option A → String → String → Result A
member_or (some a) shown enum = ok a
member_or none shown enum = err (value_error (shown <> (" is not a valid " <> enum)))

abbrev pub member : {A : Type 0} → Python → (String → Option A) → String → Json → Result A
member python read enum (text s) = member_or (read s) (python.repr (text s)) enum
member python read enum v = err (value_error (python.repr v <> (" is not a valid " <> enum)))

-- A missing argument and None leave a field as it is.
abbrev pub status_change : Python → Option Json → Result (Change (Option TaskStatus))
status_change python none = ok unset
status_change python (some null) = ok unset
status_change python (some v) =
    and_then (member python status_of "TaskStatus" v) (λ s. ok (set (some s)))

abbrev pub text_change : Python → Option Json → Change (Option String)
text_change python none = unset
text_change python (some null) = unset
text_change python (some v) = set (optional_str python.lower (some v))

module _ (python : Python) (c : ToolExecutionContext) (arguments : Fields) where
  abbrev pub optional : String → Option String
  optional key = optional_str python.lower (get key arguments)

  abbrev pub changes_of : Change (Option TaskStatus) → TaskChanges
  changes_of status = record {
    status = status;
    responsible_agent_name = text_change python (get "responsible_agent_name" arguments);
    responsible_session_id = text_change python (get "responsible_session_id" arguments);
    blocked_question = text_change python (get "blocked_question" arguments);
    blocked_correlation_id = unset;
    error = text_change python (get "error" arguments);
  }

  unfoldable pub task_update : (now : String) → (event : Stamp) → Exec Db String
  task_update now event = do
    t ← resolve_task c (optional "task_id")
    status ← lift (status_change python (get "status" arguments))
    updated ← update_task t.id (changes_of status) now event
    pure (render_task "Updated task" updated)
