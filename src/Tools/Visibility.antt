-- ===== src/Tools/Visibility.antt =====
-- src/feather/tools/task_tools.py: which tasks `task_list` shows.
use feather_os.Prelude.{
  ℕ, ℤ, String, ◌≡◌, true, Option, none, some, List, Result, ok, In, In-take, In-select,
  In-order_by, Bool-cases, inl, inr, &&-eq_true, str_eq, subst, sym, select, order_by,
}
use feather_os.Ipc.Json.{Json, Fields, get}
use feather_os.Ipc.Readings.{and_then-ok}
use feather_os.Tasks.Records.{Db, Task, TaskStatus}
use feather_os.Tasks.Work.{TaskFilter, list_tasks, list_order, passes, text_filter}
use feather_os.Tasks.Events.{clamp_limit}
use feather_os.Tools.TaskTools.{ToolExecutionContext, Python, is_responsible, owns}
use feather_os.Tools.TaskListTool.{wanted_status, limit_of, at_least_zero, filter_of, listed_tasks}

list_tasks-passes :
    (f : TaskFilter) (limit : ℕ) (db : Db) (t : Task)
    → In t (list_tasks f limit db)
    → In t db.tasks × (passes f t ≡ true)
unfolding list_tasks
list_tasks-passes f limit db t i = In-select (passes f) t db.tasks (
    In-order_by list_order t (select (passes f) db.tasks)
      (In-take t (clamp_limit limit) (order_by list_order (select (passes f) db.tasks)) i))

responsible_filter :
    (session_id : String) (column : Option String)
    → text_filter (some session_id) column ≡ true
    → is_responsible session_id column ≡ true
responsible_filter session_id none h = h
responsible_filter session_id (some s) h = h

module _ (python : Python) (c : ToolExecutionContext) (arguments : Fields) where
  passes-owns :
      (status : Option TaskStatus) (t : Task)
      → passes (filter_of python c arguments status) t ≡ true
      → owns c t ≡ true
  passes-owns status t h = elim (Bool-cases c.is_lead) [
    | inl lead ↦
        let both = &&-eq_true (str_eq t.lead_session_id c.session_id) _ (rw lead at h) in
        rw lead both.0
    | inr agent ↦
        let all = rw agent at h in
        let plan = &&-eq_true _ _ all in
        let status_too = &&-eq_true _ _ plan.1 in
        rw agent (responsible_filter c.session_id t.responsible_session_id status_too.1)
  ]

  -- Every task that `task_list` shows is a task of the store that its caller owns, whatever filters
  -- the caller gives.
  pub listed_tasks-owned :
      (to_int : Json → Result ℤ) (db : Db) (tasks : List Task) (t : Task)
      → listed_tasks python c arguments to_int db ≡ ok tasks
      → In t tasks
      → In t db.tasks × (owns c t ≡ true)
  unfolding listed_tasks
  listed_tasks-owned to_int db tasks t h i =
      let (status, _, h1) = and_then-ok (wanted_status python (get "status" arguments)) _ tasks h in
      let (limit, _, h2) =
        and_then-ok (limit_of python to_int (get "limit" arguments)) _ tasks h1 in
      let same : list_tasks (filter_of python c arguments status) (at_least_zero limit) db ≡ tasks =
        cc in
      let (here, fits) =
        list_tasks-passes (filter_of python c arguments status) (at_least_zero limit) db t
          (subst (In t) (sym same) i) in
      (here, passes-owns status t fits)
