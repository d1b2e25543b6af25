-- ===== src/Tasks/Runs.antt =====
-- The operations on `task_runs`: `create_run`, `get_run`, `finish_run`, `update_run_pid` and
-- `latest_run_for_task`.
use feather_os.Prelude.{
  ℕ, ℤ, String, ◌<>◌, Bool, Option, none, some, [], ◌∷◌, ◌++◌, str_eq, clean_optional, select,
  update, any, head?, has_key, fetch, asc_text, desc, then_by, order_by, Exec, refuse_if, modify,
  not, pure, require, ◌>>=◌, ◌>>◌,
}
use feather_os.Tasks.Records.{Db, Stamp, TaskRun, RunStatus, run_key, run_status_value}
use feather_os.Tasks.Events.{task_exists, get_task, add_event, or_else}

unfoldable pub get_run : String → Exec Db TaskRun
get_run run_id db = require (fetch run_key run_id db.runs) ("Unknown task run: " <> run_id) db

unfoldable pub insert_run : TaskRun → Exec Db Unit
insert_run r = do
  refuse_if (λ db. any (has_key run_key r.id) db.runs)
  refuse_if (λ db. not (task_exists r.task_id db))
  modify (λ db. record db { runs = db.runs ++ r ∷ [] })

abbrev pub new_run : (task_id session_id agent_name : String) → Option ℕ → Stamp → TaskRun
new_run task_id session_id agent_name pid stamp = record {
  id = stamp.id;
  task_id = task_id;
  session_id = session_id;
  agent_name = agent_name;
  pid = pid;
  status = RunStatus.running;
  exit_code = none;
  envelope_status = none;
  error = none;
  started_at = stamp.now;
  ended_at = none;
}

unfoldable pub create_run :
    (task_id session_id agent_name : String) → Option ℕ → (row event : Stamp) → Exec Db TaskRun
create_run task_id session_id agent_name pid row event = do
  get_task task_id
  insert_run (new_run task_id session_id agent_name pid row)
  add_event task_id "run_started" ("Run started: " <> (agent_name <> (" " <> session_id)))
      (some agent_name) (some session_id) event
  get_run row.id

-- The arguments of `finish_run`.
pub record Ending : Type 0 where
  pub status : RunStatus
  pub exit_code : Option ℤ
  pub envelope_status : Option String
  pub error : Option String

abbrev pub end_run : Ending → String → TaskRun → TaskRun
end_run e now r = record r {
  status = e.status;
  exit_code = e.exit_code;
  envelope_status = clean_optional e.envelope_status;
  error = clean_optional e.error;
  ended_at = some now;
}

-- `_update_fields` on `task_runs`: no row, no effect.
unfoldable pub update_run_fields : String → (TaskRun → TaskRun) → Exec Db Unit
update_run_fields run_id f =
    modify (λ db. record db { runs = update (has_key run_key run_id) f db.runs })

abbrev pub envelope_text : Option String → String
envelope_text none = "-"
envelope_text (some s) = or_else s "-"

unfoldable pub finish_run : String → Ending → (now : String) → (event : Stamp) → Exec Db TaskRun
finish_run run_id e now event = do
  update_run_fields run_id (end_run e now)
  run ← get_run run_id
  add_event run.task_id "run_finished"
      ("Run ended: "
        <> (run_status_value e.status <> (" envelope=" <> envelope_text e.envelope_status)))
      (some run.agent_name) (some run.session_id) event
  pure run

abbrev pub attach_pid : Option ℕ → TaskRun → TaskRun
attach_pid pid r = record r { pid = pid }

unfoldable pub update_run_pid : String → Option ℕ → Exec Db TaskRun
update_run_pid run_id pid = do update_run_fields run_id (attach_pid pid); get_run run_id

abbrev pub newest_run : TaskRun → TaskRun → Bool
newest_run =
    then_by (desc (asc_text (λ (r : TaskRun). r.started_at)))
      (desc (asc_text (λ (r : TaskRun). r.id)))

unfoldable pub latest_run_for_task : String → Db → Option TaskRun
latest_run_for_task task_id db =
    head? (order_by newest_run (select (λ r. str_eq r.task_id task_id) db.runs))
