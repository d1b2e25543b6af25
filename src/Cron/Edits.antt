-- ===== src/Cron/Edits.antt =====
-- src/feather/storage/cron_store.py: the operations that change a job. `touched` is the clock when
-- the row is written.
use feather_os.Prelude.{
  ℕ, String, not, ◌&&◌, ◌||◌, Option, none, some, if◌then◌else◌, strip, is_empty, prefix, Exec,
  pure, raise, lift, require, raise_if, Result, ok, err, ◌>>=◌, ◌>>◌, attribute_error,
}
use feather_os.Tasks.Work.{Change, unset, set}
use feather_os.Cron.Records.{
  ScheduleType, cron, once, JobStatus, active, completed, CronJob, Platform, is_active,
  is_completed,
}
use feather_os.Cron.Schedules.{compute_next_run_iso, schedule_changed}
use feather_os.Cron.Jobs.{Jobs, get_job, update_job_fields}

-- The keyword arguments of `update_job`.
pub record JobChanges : Type 0 where
  pub name : Change (Option String)
  pub schedule_type : Change (Option ScheduleType)
  pub schedule_value : Change (Option String)
  pub timezone : Change (Option String)
  pub prompt : Change (Option String)
  pub status : Change (Option JobStatus)

-- None becomes the empty text.
abbrev pub changed_text : Change (Option String) → String → String
changed_text unset old = old
changed_text (set none) old = ""
changed_text (set (some s)) old = strip s

-- `.strip()` on None raises.
abbrev pub stripped : Change (Option String) → String → Exec Jobs String
stripped unset old = pure old
stripped (set none) old = raise attribute_error
stripped (set (some s)) old = pure (strip s)

abbrev pub changed_option : {A : Type 0} → Change (Option A) → A → Option A
changed_option unset old = some old
changed_option (set new) old = new

-- The fields that `update_job` computed.
pub record Edit : Type 0 where
  pub name : String
  pub prompt : String
  pub schedule_type : ScheduleType
  pub schedule_value : String
  pub timezone : String
  pub status : JobStatus

abbrev pub some_text : Result String → Result (Option String)
some_text (ok t) = ok (some t)
some_text (err e) = err e

unfoldable pub next_run_after_edit : Platform → CronJob → Edit → ℕ → Result (Option String)
next_run_after_edit p job e now =
    if is_completed e.status
    then ok none
    else if schedule_changed job e.schedule_type e.schedule_value e.timezone
        || (not (is_active job.status) && is_active e.status)
    then some_text (compute_next_run_iso p e.schedule_type e.schedule_value e.timezone now)
    else ok job.next_run_at

abbrev pub apply_edit : Edit → Option String → CronJob → CronJob
apply_edit e next_run_at j = record j {
  name = e.name;
  schedule_type = e.schedule_type;
  schedule_value = e.schedule_value;
  timezone = e.timezone;
  prompt = e.prompt;
  status = e.status;
  next_run_at = next_run_at;
}

-- The second half of `update_job`: the checked fields, the due time, the write.
unfoldable pub write_edit :
    Platform → String → CronJob → Edit → (now : ℕ) → (touched : String) → Exec Jobs CronJob
write_edit p job_id job e now touched = do
  next_run_at ← lift (next_run_after_edit p job e now)
  update_job_fields job_id (apply_edit e next_run_at) touched
  get_job job_id

unfoldable pub update_job :
    Platform → (job_id : String) → JobChanges → (now : ℕ) → (touched : String) → Exec Jobs CronJob
update_job p job_id c now touched = do
  job ← get_job job_id
  schedule_value ← stripped c.schedule_value job.schedule_value
  timezone ← stripped c.timezone job.timezone
  raise_if (is_empty (changed_text c.name job.name)) "Cron job `name` must not be empty."
  raise_if (is_empty (changed_text c.prompt job.prompt)) "Cron job `prompt` must not be empty."
  schedule_type ←
      require (changed_option c.schedule_type job.schedule_type)
        "Cron job `schedule_type` must not be null."
  raise_if (is_empty schedule_value) "Cron job `schedule_value` must not be empty."
  raise_if (is_empty timezone) "Cron job `timezone` must not be empty."
  status ← require (changed_option c.status job.status) "Cron job `status` must not be null."
  write_edit p job_id job
      (record {
        name = changed_text c.name job.name;
        prompt = changed_text c.prompt job.prompt;
        schedule_type = schedule_type;
        schedule_value = schedule_value;
        timezone = timezone;
        status = status;
      })
      now touched

-- A one-time job runs no more.
abbrev pub next_run_after_success : Platform → CronJob → ℕ → Result (Option String)
next_run_after_success p job completed_at = elim job.schedule_type [
  | cron ↦
      some_text
        (compute_next_run_iso p job.schedule_type job.schedule_value job.timezone completed_at)
  | once ↦ ok none
]

abbrev pub status_after_success : CronJob → JobStatus
status_after_success job = elim job.schedule_type [ cron ↦ job.status | once ↦ completed ]

abbrev pub succeeded : Platform → CronJob → ℕ → Option String → CronJob → CronJob
succeeded p job completed_at next_run_at j = record j {
  last_run_at = some (p.isoformat completed_at);
  next_run_at = next_run_at;
  status = status_after_success job;
  last_error = none;
}

-- `completed_at` is `ran_at`, or the clock if that is not given.
unfoldable pub mark_job_succeeded :
    Platform → (job_id : String) → (completed_at : ℕ) → (touched : String) → Exec Jobs CronJob
mark_job_succeeded p job_id completed_at touched = do
  job ← get_job job_id
  next_run_at ← lift (next_run_after_success p job completed_at)
  update_job_fields job_id (succeeded p job completed_at next_run_at) touched
  get_job job_id

abbrev pub error_or_unknown : String → String
error_or_unknown error =
    let text = prefix 4000 (strip error) in
    if is_empty text then "Unknown cron dispatch error." else text

abbrev pub failed : Platform → String → ℕ → CronJob → CronJob
failed p error retry_at j = record j {
  last_error = some (error_or_unknown error);
  next_run_at = some (p.isoformat retry_at);
  status = active;
}

unfoldable pub mark_job_failed :
    Platform → (job_id error : String) → (retry_at : ℕ) → (touched : String) → Exec Jobs CronJob
mark_job_failed p job_id error retry_at touched = do
  job ← get_job job_id
  if is_completed job.status
      then pure job
      else do update_job_fields job_id (failed p error retry_at) touched; get_job job_id
