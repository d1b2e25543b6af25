-- ===== src/Tools/TaskListTool.antt =====
-- src/feather/tools/task_tools.py: `execute` of `task_list`. `to_int` is `int`.
use feather_os.Prelude.{
  ℕ, ℤ, pos, negsuc, String, ◌<>◌, Option, none, some, List, [], ◌∷◌, map, if◌then◌else◌, strip,
  is_empty, join, Result, ok,
}
use feather_os.Ipc.Json.{Json, null, text, Fields, get, and_then}
use feather_os.Tasks.Records.{Db, Task, TaskStatus, status_value}
use feather_os.Tasks.Work.{TaskFilter, list_tasks}
use feather_os.Tools.SendMessage.{truth}
use feather_os.Tools.TaskTools.{ToolExecutionContext, Python, or_dash, status_of, member, optional}

abbrev pub task_line : Task → String
task_line t =
    "- "
    <> (status_value t.status
        <> (" id="
            <> (t.id
                <> (" title="
                    <> (t.title
                        <> (" agent="
                            <> (or_dash t.responsible_agent_name
                                <> (" session=" <> or_dash t.responsible_session_id))))))))

abbrev pub rendered_list : List Task → String
rendered_list [] = "No tasks found."
rendered_list (t ∷ tasks) = join "\n" ("Tasks:" ∷ map task_line (t ∷ tasks))

-- A blank status is none.
abbrev pub wanted_status : Python → Option Json → Result (Option TaskStatus)
wanted_status python none = ok none
wanted_status python (some null) = ok none
wanted_status python (some (text s)) =
    if is_empty (strip s)
    then ok none
    else and_then (member python status_of "TaskStatus" (text (strip s)))
        (λ status. ok (some status))
wanted_status python (some v) =
    and_then (member python status_of "TaskStatus" v) (λ status. ok (some status))

abbrev pub limit_of : Python → (Json → Result ℤ) → Option Json → Result ℤ
limit_of python to_int none = ok (pos 20)
limit_of python to_int (some v) = if truth python.nonzero (some v) then to_int v else ok (pos 20)

-- The store counts a limit below 1 as 1.
abbrev pub at_least_zero : ℤ → ℕ
at_least_zero (pos n) = n
at_least_zero (negsuc n) = 0

module _ (python : Python) (c : ToolExecutionContext) (arguments : Fields) where
  abbrev pub filter_of : Option TaskStatus → TaskFilter
  filter_of status =
      if c.is_lead
      then record {
        lead_session_id = some c.session_id;
        plan_id = optional python c arguments "plan_id";
        status = status;
        responsible_session_id = optional python c arguments "responsible_session_id";
      }
      else record {
        lead_session_id = none;
        plan_id = optional python c arguments "plan_id";
        status = status;
        responsible_session_id = some c.session_id;
      }

  unfoldable pub listed_tasks : (Json → Result ℤ) → Db → Result (List Task)
  listed_tasks to_int db = and_then (wanted_status python (get "status" arguments)) (λ status.
      and_then (limit_of python to_int (get "limit" arguments))
        (λ limit. ok (list_tasks (filter_of status) (at_least_zero limit) db)))

  unfoldable pub task_list : (Json → Result ℤ) → Db → Result String
  task_list to_int db = and_then (listed_tasks to_int db) (λ tasks. ok (rendered_list tasks))
