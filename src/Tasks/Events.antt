-- ===== src/Tasks/Events.antt =====
-- The timeline of a task: `get_task`, `add_event`, `get_event` and `list_events`.
use feather_os.Prelude.{
  ℕ, String, ◌<>◌, Bool, not, Option, List, [], ◌∷◌, ◌++◌, min, max, if◌then◌else◌, str_eq, strip,
  is_empty, clean_optional, take, select, any, has_key, fetch, asc_text, desc, then_by, order_by,
  Exec, refuse_if, modify, require, ◌>>◌,
}
use feather_os.Tasks.Records.{Db, Stamp, Task, TaskEvent, task_key, event_key}

-- SQLite enforces the foreign keys (`PRAGMA foreign_keys=ON` in src/feather/storage/connection.py).
abbrev pub task_exists : String → Db → Bool
task_exists task_id db = any (has_key task_key task_id) db.tasks

unfoldable pub get_task : String → Exec Db Task
get_task task_id db = require (fetch task_key task_id db.tasks) ("Unknown task: " <> task_id) db

unfoldable pub get_event : String → Exec Db TaskEvent
get_event event_id db =
    require (fetch event_key event_id db.events) ("Unknown task event: " <> event_id) db

-- The primary key and the foreign key of `task_events`.
unfoldable pub insert_event : TaskEvent → Exec Db Unit
insert_event e = do
  refuse_if (λ db. any (has_key event_key e.id) db.events)
  refuse_if (λ db. not (task_exists e.task_id db))
  modify (λ db. record db { events = db.events ++ e ∷ [] })

-- Python's `text or default`.
abbrev pub or_else : String → String → String
or_else s d = if is_empty s then d else s

abbrev pub new_event :
    (task_id event_type message : String) (agent_name session_id : Option String)
    → Stamp
    → TaskEvent
new_event task_id event_type message agent_name session_id stamp = record {
  id = stamp.id;
  task_id = task_id;
  event_type = or_else (strip event_type) "event";
  message = or_else (strip message) "(empty)";
  agent_name = clean_optional agent_name;
  session_id = clean_optional session_id;
  created_at = stamp.now;
}

unfoldable pub add_event :
    (task_id event_type message : String) (agent_name session_id : Option String)
    → Stamp
    → Exec Db TaskEvent
add_event task_id event_type message agent_name session_id stamp = do
  insert_event (new_event task_id event_type message agent_name session_id stamp)
  get_event stamp.id

-- `max(1, min(200, int(limit)))`; a limit below 1 counts as 1.
abbrev pub clamp_limit : ℕ → ℕ
clamp_limit limit = max 1 (min 200 limit)

abbrev pub event_order : TaskEvent → TaskEvent → Bool
event_order =
    then_by (asc_text (λ (e : TaskEvent). e.created_at)) (asc_text (λ (e : TaskEvent). e.id))

abbrev pub of_task : String → TaskEvent → Bool
of_task task_id e = str_eq e.task_id task_id

-- The newest events, back in chronological order.
unfoldable pub list_events : String → ℕ → Db → List TaskEvent
list_events task_id limit db =
    order_by event_order
      (take (clamp_limit limit) (order_by (desc event_order) (select (of_task task_id) db.events)))
