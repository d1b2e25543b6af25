-- ===== src/Cron/Records.antt =====
-- src/feather/models/records.py: the rows of the cron table, and what the store takes from outside
-- the repository. A datetime in UTC is the number of its microseconds.
use feather_os.Prelude.{ℕ, String, Bool, Option, Error}

pub data ScheduleType : Type 0 where
  cron once : ScheduleType

pub data JobStatus : Type 0 where
  active paused completed : JobStatus

pub record CronJob : Type 0 where
  pub id : String
  pub session_id : String
  pub agent_key : String
  pub name : String
  pub schedule_type : ScheduleType
  pub schedule_value : String
  pub timezone : String
  pub prompt : String
  pub status : JobStatus
  pub last_run_at : Option String
  pub next_run_at : Option String
  pub last_error : Option String
  pub created_at : String
  pub updated_at : String

abbrev pub job_key : CronJob → String
job_key j = j.id

-- What `ZoneInfo(key)` does: it finds the zone, raises ZoneInfoNotFoundError, or raises otherwise.
pub data ZoneLookup : Type 0 where
  found not_found : ZoneLookup
  refused : Error → ZoneLookup

-- Python's datetime and zoneinfo, croniter, and SQLite's LOWER.
pub record Platform : Type 0 where
  pub isoformat : ℕ → String
  pub find_zone : String → ZoneLookup
  -- `croniter(expression, base in the zone).get_next(datetime)` in UTC; none if it raises
  pub next_cron : (expression zone : String) → ℕ → Option ℕ
  -- `datetime.fromisoformat(value)`, read in the zone if it names none, in UTC; none if it raises
  pub parse_datetime : (value zone : String) → Option ℕ
  pub lower : String → String
  -- `str(exc)`
  pub error_text : Error → String

abbrev pub schedule_value_of : ScheduleType → String
schedule_value_of cron = "cron"
schedule_value_of once = "once"

abbrev pub same_schedule : ScheduleType → ScheduleType → Bool
same_schedule cron cron = Bool.true
same_schedule once once = Bool.true
same_schedule _ _ = Bool.false

abbrev pub is_active : JobStatus → Bool
is_active active = Bool.true
is_active _ = Bool.false

abbrev pub is_completed : JobStatus → Bool
is_completed completed = Bool.true
is_completed _ = Bool.false
