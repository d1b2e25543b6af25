-- ===== src/Tools/TaskCreateTool.antt =====
-- src/feather/tools/task_tools.py: `execute` of `task_create`. `shown` is `str` of a value.
use feather_os.Prelude.{
  String, ◌<>◌, not, Option, none, some, List, map, select, strip, is_empty, Result, ok, Exec, pure,
  lift, ◌>>=◌,
}
use feather_os.Ipc.Json.{Json, Fields, get, and_then}
use feather_os.Tasks.Records.{Db, Stamp, Plan, PlanStatus, queued}
use feather_os.Tasks.Plans.{create_plan, find_plan_by_filepath}
use feather_os.Tasks.Work.{NewTask, create_task}
use feather_os.Tools.InputRequests.{shown_or_blank, option_texts}
use feather_os.Tools.TaskTools.{ToolExecutionContext, Python, require_text, render_task, optional}

abbrev pub nonblank : List String → List String
nonblank texts = select (λ s. not (is_empty s)) (map strip texts)

module _ (python : Python) (shown : Json → String) (c : ToolExecutionContext)
    (arguments : Fields) where
  -- `_optional_str(plan_title) or f"Plan for {_require_str(title)}"`
  abbrev pub plan_title : Option String → Result String
  plan_title (some title) = ok title
  plan_title none = and_then (require_text arguments "title") (λ title. ok ("Plan for " <> title))

  abbrev pub plan_for : String → Stamp → Option Plan → Exec Db (Option String)
  plan_for filepath row (some plan) = pure (some plan.id)
  plan_for filepath row none = do
    title ← lift (plan_title (optional python c arguments "plan_title"))
    plan ←
        create_plan
          (record {
            filepath = filepath;
            title = title;
            summary = "Created by task_create.";
            lead_session_id = c.session_id;
            status = PlanStatus.active;
          })
          row
    pure (some plan.id)

  -- A plan id that is given wins over a filepath.
  abbrev pub chosen_plan : Stamp → Option String → Option String → Exec Db (Option String)
  chosen_plan row (some plan_id) filepath = pure (some plan_id)
  chosen_plan row none none = pure none
  chosen_plan row none (some filepath) =
      λ db. plan_for filepath row (find_plan_by_filepath c.session_id filepath db) db

  abbrev pub task_for : Option String → String → List String → NewTask
  task_for plan_id title required_outputs = record {
    lead_session_id = c.session_id;
    title = title;
    description = shown_or_blank shown python.nonzero (get "description" arguments);
    success_criteria = shown_or_blank shown python.nonzero (get "success_criteria" arguments);
    required_outputs = some (nonblank required_outputs);
    plan_id = plan_id;
    parent_task_id = none;
    responsible_agent_name = optional python c arguments "responsible_agent_name";
    responsible_session_id = optional python c arguments "responsible_session_id";
    status = queued;
  }

  unfoldable pub task_create : (plan row event : Stamp) → Exec Db String
  task_create plan row event = do
    plan_id ←
        chosen_plan plan (optional python c arguments "plan_id")
          (optional python c arguments "plan_filepath")
    title ← lift (require_text arguments "title")
    required_outputs ← lift (option_texts shown python.nonzero (get "required_outputs" arguments))
    t ← create_task (task_for plan_id title required_outputs) row event
    pure (render_task "Created task" t)
