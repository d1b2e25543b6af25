-- ===== src/Tasks/Work.antt =====
-- The operations on the table `tasks`: `create_task`, `find_task_by_session`, `list_tasks` and
-- `update_task`.
use feather_os.Prelude.{
  ℕ, String, ◌<>◌, Bool, true, false, ◌&&◌, not, Option, none, some, List, [], ◌∷◌, ◌++◌,
  if◌then◌else◌, str_eq, strip, is_empty, clean_optional, take, select, update, any, head?, has_key,
  asc, asc_text, desc, then_by, order_by, Exec, pure, raise, refuse_if, modify, raise_if, if_given,
  ◌>>=◌, ◌>>◌, value_error,
}
use feather_os.Tasks.Records.{
  Db, Stamp, Task, TaskStatus, queued, blocked_needs_input, completed_with_report,
  completed_with_artifacts, completed_without_artifacts, stopped, task_key, plan_key, status_value,
}
use feather_os.Tasks.Events.{get_task, add_event, clamp_limit}
use feather_os.Tasks.Plans.{get_plan}

-- The keyword arguments of `create_task`.
pub record NewTask : Type 0 where
  pub lead_session_id : String
  pub title : String
  pub description : String
  pub success_criteria : String
  pub required_outputs : Option (List String)
  pub plan_id : Option String
  pub parent_task_id : Option String
  pub responsible_agent_name : Option String
  pub responsible_session_id : Option String
  pub status : TaskStatus

abbrev pub list_or_empty : Option (List String) → List String
list_or_empty none = []
list_or_empty (some l) = l

abbrev pub new_task : NewTask → Stamp → Task
new_task a stamp = record {
  id = stamp.id;
  plan_id = a.plan_id;
  parent_task_id = a.parent_task_id;
  title = strip a.title;
  description = strip a.description;
  success_criteria = strip a.success_criteria;
  required_outputs = list_or_empty a.required_outputs;
  status = a.status;
  responsible_agent_name = clean_optional a.responsible_agent_name;
  responsible_session_id = clean_optional a.responsible_session_id;
  lead_session_id = a.lead_session_id;
  blocked_question = none;
  blocked_correlation_id = none;
  error = none;
  created_at = stamp.now;
  updated_at = stamp.now;
}

-- A NULL reference is always allowed.
abbrev pub refers : {A : Type 0} → (A → String) → Option String → List A → Bool
refers key none rows = true
refers key (some k) rows = any (has_key key k) rows

-- The primary key of `tasks` and its references to `plans` and `tasks`.
unfoldable pub insert_task : Task → Exec Db Unit
insert_task t = do
  refuse_if (λ db. any (has_key task_key t.id) db.tasks)
  refuse_if (λ db. not (refers plan_key t.plan_id db.plans))
  refuse_if (λ db. not (refers task_key t.parent_task_id db.tasks))
  modify (λ db. record db { tasks = db.tasks ++ t ∷ [] })

unfoldable pub create_task : NewTask → (row event : Stamp) → Exec Db Task
create_task a row event = do
  raise_if (is_empty (strip a.title)) "Task `title` must not be empty."
  raise_if (is_empty a.lead_session_id) "Task `lead_session_id` must not be empty."
  if_given a.plan_id get_plan
  if_given a.parent_task_id get_task
  insert_task (new_task a row)
  add_event row.id "created" ("Task created: " <> strip a.title) a.responsible_agent_name
      a.responsible_session_id event
  get_task row.id

-- `_TERMINAL_STATUSES`
abbrev pub is_terminal : TaskStatus → Bool
is_terminal completed_with_report = true
is_terminal completed_with_artifacts = true
is_terminal completed_without_artifacts = true
is_terminal TaskStatus.failed = true
is_terminal stopped = true
is_terminal _ = false

abbrev pub recent_task : Task → Task → Bool
recent_task =
    then_by (desc (asc_text (λ (t : Task). t.updated_at)))
      (desc (asc_text (λ (t : Task). t.created_at)))

abbrev pub terminal_rank : Task → ℕ
terminal_rank t = if is_terminal t.status then 1 else 0

abbrev pub assigned_to : String → Task → Bool
assigned_to session_id t = elim t.responsible_session_id [
  | none ↦ false
  | some s ↦ str_eq s session_id
]

unfoldable pub find_task_by_session : String → Db → Option Task
find_task_by_session session_id db =
    head? (
      order_by (then_by (asc terminal_rank) recent_task) (select (assigned_to session_id) db.tasks))

-- CASE status … in the ORDER BY of `list_tasks`
abbrev pub status_rank : TaskStatus → ℕ
status_rank TaskStatus.running = 0
status_rank blocked_needs_input = 1
status_rank queued = 2
status_rank TaskStatus.failed = 3
status_rank _ = 4

-- The optional filters of `list_tasks`.
pub record TaskFilter : Type 0 where
  pub lead_session_id : Option String
  pub plan_id : Option String
  pub status : Option TaskStatus
  pub responsible_session_id : Option String

-- A filter that is not given lets every row through; a NULL column equals nothing.
abbrev pub text_filter : Option String → Option String → Bool
text_filter none column = true
text_filter (some s) none = false
text_filter (some s) (some t) = str_eq t s

abbrev pub status_filter : Option TaskStatus → TaskStatus → Bool
status_filter none column = true
status_filter (some s) column = str_eq (status_value column) (status_value s)

abbrev pub passes : TaskFilter → Task → Bool
passes f t =
    text_filter f.lead_session_id (some t.lead_session_id)
    && (text_filter f.plan_id t.plan_id
        && (status_filter f.status t.status
            && text_filter f.responsible_session_id t.responsible_session_id))

abbrev pub list_order : Task → Task → Bool
list_order = then_by (asc (λ (t : Task). status_rank t.status)) recent_task

unfoldable pub list_tasks : TaskFilter → ℕ → Db → List Task
list_tasks f limit db = take (clamp_limit limit) (order_by list_order (select (passes f) db.tasks))

-- A keyword argument of `update_task`: `_UNSET`, or a value.
pub data Change (A : Type 0) : Type 0 where
  unset : Change A
  set : A → Change A

pub record TaskChanges : Type 0 where
  pub status : Change (Option TaskStatus)
  pub responsible_agent_name : Change (Option String)
  pub responsible_session_id : Change (Option String)
  pub blocked_question : Change (Option String)
  pub blocked_correlation_id : Change (Option String)
  pub error : Change (Option String)

abbrev pub changed : Change (Option String) → Option String → Option String
changed unset old = old
changed (set new) old = clean_optional new

abbrev pub changed_status : Change (Option TaskStatus) → TaskStatus → TaskStatus
changed_status (set (some s)) old = s
changed_status _ old = old

abbrev pub is_unset : {A : Type 0} → Change A → Bool
is_unset unset = true
is_unset (set _) = false

-- `if not values`
abbrev pub changes_nothing : TaskChanges → Bool
changes_nothing c =
    is_unset c.status
    && (is_unset c.responsible_agent_name
        && (is_unset c.responsible_session_id
            && (is_unset c.blocked_question
                && (is_unset c.blocked_correlation_id && is_unset c.error))))

abbrev pub apply_changes : TaskChanges → String → Task → Task
apply_changes c now t = record t {
  status = changed_status c.status t.status;
  responsible_agent_name = changed c.responsible_agent_name t.responsible_agent_name;
  responsible_session_id = changed c.responsible_session_id t.responsible_session_id;
  blocked_question = changed c.blocked_question t.blocked_question;
  blocked_correlation_id = changed c.blocked_correlation_id t.blocked_correlation_id;
  error = changed c.error t.error;
  updated_at = now;
}

-- `_update_fields` on `tasks`: no row, no effect.
unfoldable pub update_task_fields : String → TaskChanges → String → Exec Db Unit
update_task_fields task_id c now =
    modify
      (λ db. record db { tasks = update (has_key task_key task_id) (apply_changes c now) db.tasks })

abbrev pub refuse_null_status : Change (Option TaskStatus) → Exec Db Unit
refuse_null_status (set none) = raise (value_error "Task `status` must not be null.")
refuse_null_status _ = pure tt

-- The event that a written status leaves on the timeline.
abbrev pub log_status : Change (Option TaskStatus) → String → Task → Stamp → Exec Db Unit
log_status unset task_id t event = pure tt
log_status (set _) task_id t event = do
  add_event task_id "status" ("Task status -> " <> status_value t.status) t.responsible_agent_name
      t.responsible_session_id event
  pure tt

-- `now` is the clock when the row is touched.
unfoldable pub update_task : String → TaskChanges → (now : String) → (event : Stamp) → Exec Db Task
update_task task_id c now event = do
  get_task task_id
  refuse_null_status c.status
  if changes_nothing c then get_task task_id else do
    update_task_fields task_id c now
    updated ← get_task task_id
    log_status c.status task_id updated event
    pure updated
