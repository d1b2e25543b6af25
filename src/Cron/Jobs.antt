-- ===== src/Cron/Jobs.antt =====
-- src/feather/storage/cron_store.py: the table of the scheduled jobs. `now` and `touched` are what
-- `_utc_now` gave, `job_id` what `uuid4` gave.
use feather_os.Prelude.{
  ℕ, String, Bool, true, false, not, ◌&&◌, Option, none, some, List, [], ◌∷◌, ◌++◌, str_eq, str_leb,
  strip, is_empty, take, select, update, any, has_key, fetch, asc, asc_text, then_by, order_by,
  Exec, lift, require, refuse_if, modify, raise_if, ◌>>=◌, ◌>>◌, ◌<>◌,
}
use feather_os.Cron.Records.{
  ScheduleType, JobStatus, active, paused, completed, CronJob, Platform, job_key, is_active,
}
use feather_os.Cron.Schedules.{compute_next_run_iso}

abbrev pub Jobs : Type 0
Jobs = List CronJob

-- The keyword arguments of `create_job`.
pub record NewJob : Type 0 where
  pub session_id : String
  pub agent_key : String
  pub name : String
  pub schedule_type : ScheduleType
  pub schedule_value : String
  pub timezone : String
  pub prompt : String

unfoldable pub get_job : String → Exec Jobs CronJob
get_job job_id jobs = require (fetch job_key job_id jobs) ("Unknown cron job: " <> job_id) jobs

abbrev pub new_job : Platform → NewJob → ℕ → String → String → CronJob
new_job p n now next_run_at job_id = record {
  id = job_id;
  session_id = n.session_id;
  agent_key = n.agent_key;
  name = strip n.name;
  schedule_type = n.schedule_type;
  schedule_value = strip n.schedule_value;
  timezone = strip n.timezone;
  prompt = strip n.prompt;
  status = active;
  last_run_at = none;
  next_run_at = some next_run_at;
  last_error = none;
  created_at = p.isoformat now;
  updated_at = p.isoformat now;
}

-- The primary key, and the reference to the table `sessions`, whose ids are `sessions`.
abbrev pub insert_job : (sessions : List String) → CronJob → Exec Jobs Unit
insert_job sessions j = do
  refuse_if (any (has_key job_key j.id))
  refuse_if (λ jobs. not (any (λ i. str_eq i j.session_id) sessions))
  modify (λ jobs. jobs ++ j ∷ [])

unfoldable pub create_job :
    Platform → (sessions : List String) → NewJob → (now : ℕ) → (job_id : String) → Exec Jobs CronJob
create_job p sessions n now job_id = do
  raise_if (is_empty (strip n.name)) "Cron job `name` must not be empty."
  raise_if (is_empty (strip n.prompt)) "Cron job `prompt` must not be empty."
  next_run_at ← lift (compute_next_run_iso p n.schedule_type n.schedule_value n.timezone now)
  insert_job sessions (new_job p n now next_run_at job_id)
  get_job job_id

-- Whether two statuses have one value.
abbrev pub same_status : JobStatus → JobStatus → Bool
same_status active active = true
same_status paused paused = true
same_status completed completed = true
same_status _ _ = false

abbrev pub given_or_any : {A B : Type 0} → (A → B → Bool) → Option A → B → Bool
given_or_any test none column = true
given_or_any test (some a) column = test a column

-- CASE WHEN next_run_at IS NULL THEN 1 ELSE 0 END
abbrev pub no_next_run : CronJob → ℕ
no_next_run j = elim j.next_run_at [ none ↦ 1 | some _ ↦ 0 ]

abbrev pub next_run_text : CronJob → String
next_run_text j = elim j.next_run_at [ none ↦ "" | some t ↦ t ]

abbrev pub job_order : CronJob → CronJob → Bool
job_order =
    then_by (asc no_next_run)
      (then_by (asc_text next_run_text) (asc_text (λ (j : CronJob). j.created_at)))

abbrev pub limited : Option ℕ → Jobs → Jobs
limited none jobs = jobs
limited (some n) jobs = take n jobs

unfoldable pub list_jobs : Option String → Option JobStatus → Option ℕ → Jobs → Jobs
list_jobs session_id status limit jobs = limited limit (
    order_by job_order (
      select
        (λ j.
          given_or_any str_eq session_id j.session_id && given_or_any same_status status j.status)
        jobs))

unfoldable pub find_jobs_by_name : Platform → (session_id name : String) → Jobs → Jobs
find_jobs_by_name p session_id name jobs = order_by (asc_text (λ (j : CronJob). j.created_at)) (
    select (λ j. str_eq j.session_id session_id && str_eq (p.lower j.name) (p.lower (strip name)))
      jobs)

unfoldable pub delete_job : String → Jobs → Bool × Jobs
delete_job job_id jobs =
    (any (has_key job_key job_id) jobs, select (λ j. not (has_key job_key job_id j)) jobs)

-- WHERE status = 'active' AND next_run_at IS NOT NULL AND next_run_at <= ?
abbrev pub is_due : String → CronJob → Bool
is_due now j = is_active j.status && elim j.next_run_at [ none ↦ false | some t ↦ str_leb t now ]

unfoldable pub list_due_jobs : String → ℕ → Jobs → Jobs
list_due_jobs now limit jobs =
    take limit (order_by (asc_text next_run_text) (select (is_due now) jobs))

-- `_update_job_fields`: no row, no effect.
abbrev pub update_job_fields : String → (CronJob → CronJob) → (touched : String) → Exec Jobs Unit
update_job_fields job_id values touched =
    modify (update (has_key job_key job_id) (λ j. record (values j) { updated_at = touched }))
