-- ===== src/Tools/TaskGetTool.antt =====
-- src/feather/tools/task_tools.py: `execute` of `task_get`.
use feather_os.Prelude.{String, ◌<>◌, some, List, [], ◌∷◌, ◌++◌, map, join, Exec, lift, ◌>>=◌, ok}
use feather_os.Ipc.Json.{Fields}
use feather_os.Tasks.Records.{Db, TaskOutput, TaskEvent, kind_value}
use feather_os.Tasks.Events.{list_events}
use feather_os.Tasks.Outputs.{list_outputs}
use feather_os.Tools.TaskTools.{
  ToolExecutionContext, require_text, resolve_task, render_task, or_dash,
}
use feather_os.Tools.TaskOutputTool.{shown_bool}

abbrev pub output_line : TaskOutput → String
output_line o =
    "- "
    <> (kind_value o.kind
        <> (" final="
            <> (shown_bool o.is_final
                <> (" validated="
                    <> (shown_bool o.validated
                        <> (" path=" <> (or_dash o.path <> (" summary=" <> o.summary))))))))

abbrev pub event_line : TaskEvent → String
event_line e = "- " <> (e.created_at <> (" " <> (e.event_type <> (": " <> e.message))))

-- A heading with its lines, or nothing.
abbrev pub section : String → List String → List String
section heading [] = []
section heading (l ∷ lines) = heading ∷ l ∷ lines

unfoldable pub task_get : ToolExecutionContext → Fields → Exec Db String
task_get c arguments = do
  task_id ← lift (require_text arguments "task_id")
  t ← resolve_task c (some task_id)
  λ db. (
    ok (
        join "\n" (
          render_task "Task" t
          ∷ (section "outputs:" (map output_line (list_outputs t.id db))
              ++ section "recent_events:" (map event_line (list_events t.id 8 db))))),
    db,
  )
