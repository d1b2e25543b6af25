-- ===== src/Tasks/Records.antt =====
-- The records of src/feather/models/records.py that the task store keeps, and its tables. The
-- column `required_outputs` holds `json.dumps` of a list of texts, which `json.loads` reads back:
-- the model keeps the list.
use feather_os.Prelude.{ℕ, String, Bool, Option, List, ℤ}

pub data PlanStatus : Type 0 where
  draft active completed failed : PlanStatus

pub data TaskStatus : Type 0 where
  queued running blocked_needs_input completed_with_report completed_with_artifacts : TaskStatus
  completed_without_artifacts failed stopped : TaskStatus

pub data RunStatus : Type 0 where
  running exited crashed killed : RunStatus

pub data OutputKind : Type 0 where
  report artifact source log : OutputKind

pub record Plan : Type 0 where
  pub id : String
  pub filepath : String
  pub title : String
  pub summary : String
  pub status : PlanStatus
  pub lead_session_id : String
  pub created_at : String
  pub updated_at : String

pub record Task : Type 0 where
  pub id : String
  pub plan_id : Option String
  pub parent_task_id : Option String
  pub title : String
  pub description : String
  pub success_criteria : String
  pub required_outputs : List String
  pub status : TaskStatus
  pub responsible_agent_name : Option String
  pub responsible_session_id : Option String
  pub lead_session_id : String
  pub blocked_question : Option String
  pub blocked_correlation_id : Option String
  pub error : Option String
  pub created_at : String
  pub updated_at : String

pub record TaskRun : Type 0 where
  pub id : String
  pub task_id : String
  pub session_id : String
  pub agent_name : String
  pub pid : Option ℕ
  pub status : RunStatus
  pub exit_code : Option ℤ
  pub envelope_status : Option String
  pub error : Option String
  pub started_at : String
  pub ended_at : Option String

pub record TaskOutput : Type 0 where
  pub id : String
  pub task_id : String
  pub kind : OutputKind
  pub path : Option String
  pub content : Option String
  pub summary : String
  pub created_by_session_id : String
  pub validated : Bool
  pub is_final : Bool
  pub created_at : String

pub record TaskEvent : Type 0 where
  pub id : String
  pub task_id : String
  pub event_type : String
  pub message : String
  pub agent_name : Option String
  pub session_id : Option String
  pub created_at : String

pub record Db : Type 0 where
  pub plans : List Plan
  pub tasks : List Task
  pub runs : List TaskRun
  pub outputs : List TaskOutput
  pub events : List TaskEvent

-- What one INSERT draws from outside: a fresh `uuid4` and the clock.
pub record Stamp : Type 0 where
  pub id : String
  pub now : String

abbrev pub plan_key : Plan → String
plan_key p = p.id

abbrev pub task_key : Task → String
task_key t = t.id

abbrev pub run_key : TaskRun → String
run_key r = r.id

abbrev pub output_key : TaskOutput → String
output_key o = o.id

abbrev pub event_key : TaskEvent → String
event_key e = e.id

abbrev pub status_value : TaskStatus → String
status_value queued = "queued"
status_value TaskStatus.running = "running"
status_value blocked_needs_input = "blocked_needs_input"
status_value completed_with_report = "completed_with_report"
status_value completed_with_artifacts = "completed_with_artifacts"
status_value completed_without_artifacts = "completed_without_artifacts"
status_value TaskStatus.failed = "failed"
status_value stopped = "stopped"

abbrev pub kind_value : OutputKind → String
kind_value report = "report"
kind_value artifact = "artifact"
kind_value source = "source"
kind_value log = "log"

abbrev pub run_status_value : RunStatus → String
run_status_value RunStatus.running = "running"
run_status_value exited = "exited"
run_status_value crashed = "crashed"
run_status_value killed = "killed"
