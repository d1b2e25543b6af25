-- ===== src/Cron/Scheduler.antt =====
-- src/feather/core/scheduling/cron_scheduler.py: one tick of the scheduler. Each tick is modelled as
-- running to its end before the next; an event handler is a function that may raise.
use feather_os.Prelude.{
  ℕ, suc, ◌+◌, ◌*◌, String, ◌<>◌, str_eq, Bool, false, not, Option, none, some, List, [], ◌∷◌, ◌++◌,
  if◌then◌else◌, any, select, Exec, pure, lift, attempt, finally, modify, Result, ok, err, Error,
  ◌>>=◌, ◌>>◌,
}
use feather_os.Mailbox.{Message, Store, Outgoing, send}
use feather_os.Cron.Records.{CronJob, Platform, schedule_value_of}
use feather_os.Cron.Jobs.{Jobs, list_due_jobs}
use feather_os.Cron.Edits.{mark_job_succeeded, mark_job_failed}

pub record SchedulerConfig : Type 0 where
  pub enabled : Bool
  pub max_due_jobs_per_tick : ℕ
  pub failure_retry_seconds : ℕ

pub data Notice : Type 0 where
  scheduled_task_triggered scheduled_task_failed : (text : String) → Notice

abbrev pub Handler : Type 0
Handler = Notice → Result Unit

-- The state of the scheduler, its two stores, and the notices that were passed to handlers.
pub record World : Type 0 where
  pub dispatching_job_ids : List String
  pub jobs : Jobs
  pub mailbox : Store
  pub notices : List Notice

-- What the clock and `uuid4` give while a job is dispatched.
pub record Dispatch : Type 0 where
  pub fired_at : ℕ
  pub sent_at : String
  pub message_id : String
  pub fresh : String
  pub touched : String

abbrev pub on_jobs : {A : Type 0} → Exec Jobs A → Exec World A
on_jobs m w = let (r, jobs) = m w.jobs in (r, record w { jobs = jobs })

abbrev pub on_mailbox : {A : Type 0} → Exec Store A → Exec World A
on_mailbox m w = let (r, mailbox) = m w.mailbox in (r, record w { mailbox = mailbox })

abbrev pub tell : Option Handler → Notice → Exec World Unit
tell none notice = pure tt
tell (some handler) notice = do
  modify (λ w. record w { notices = w.notices ++ notice ∷ [] })
  lift (handler notice)

unfoldable pub render_scheduled_message : CronJob → String → String
render_scheduled_message job fired_at =
    "<scheduled_task_trigger>\n<cron_job_id>"
    <> job.id
    <> "</cron_job_id>\n<cron_job_name>"
    <> job.name
    <> "</cron_job_name>\n<schedule_type>"
    <> schedule_value_of job.schedule_type
    <> "</schedule_type>\n<schedule_value>"
    <> job.schedule_value
    <> "</schedule_value>\n<timezone>"
    <> job.timezone
    <> "</timezone>\n<fired_at>"
    <> fired_at
    <> "</fired_at>\n<instruction>\n"
    <> job.prompt
    <> "\n</instruction>\n</scheduled_task_trigger>"

abbrev pub scheduled_message : CronJob → String → Outgoing
scheduled_message job fired_at = record {
  from_session_id = job.session_id;
  from_agent_name = "__system_cron";
  to_session_id = job.session_id;
  to_agent_name = job.agent_key;
  body = render_scheduled_message job fired_at;
  expects_response = false;
  correlation_id = none;
  in_reply_to = none;
}

-- job_id in self._dispatching_job_ids
abbrev pub held : String → List String → Bool
held job_id ids = any (λ i. str_eq i job_id) ids

-- The loop under the lock: the jobs that no tick is dispatching, and the set with them.
abbrev pub claim_jobs : Jobs → List String → Jobs × List String
claim_jobs [] ids = ([], ids)
claim_jobs (job ∷ due) ids =
    let busy = held job.id ids in
    let rest = claim_jobs due (if busy then ids else job.id ∷ ids) in
    (if busy then rest.0 else job ∷ rest.0, rest.1)

abbrev pub discard : String → World → World
discard job_id w = record w {
  dispatching_job_ids = select (λ i. not (str_eq i job_id)) w.dispatching_job_ids;
}

module _ (p : Platform) (config : SchedulerConfig) (resolver : String → Option Handler) where
  abbrev pub retry_at : Dispatch → ℕ
  retry_at d = d.fired_at + config.failure_retry_seconds * 1000000

  abbrev pub triggered : CronJob → Dispatch → Notice
  triggered job d = scheduled_task_triggered (
      "Cron `"
      <> job.name
      <> "` queued for the "
      <> job.agent_key
      <> " agent at "
      <> p.isoformat d.fired_at)

  abbrev pub put_off_notice : CronJob → Dispatch → Error → Notice
  put_off_notice job d e = scheduled_task_failed (
      "Cron `"
      <> job.name
      <> "` failed to queue and will retry at "
      <> p.isoformat (retry_at d)
      <> ": "
      <> p.error_text e)

  abbrev pub after_send : CronJob → Dispatch → Result Message → Exec World Unit
  after_send job d (err e) = do
    on_jobs (mark_job_failed p job.id (p.error_text e) (retry_at d) d.touched)
    tell (resolver job.session_id) (put_off_notice job d e)
  after_send job d (ok m) = do on_jobs (mark_job_succeeded p job.id d.fired_at d.touched); pure tt

  -- `await self._message_store.send(…)` under its `try`
  abbrev pub post : CronJob → Dispatch → Exec World (Result Message)
  post job d = attempt (
      on_mailbox
        (send (scheduled_message job (p.isoformat d.fired_at)) d.sent_at d.message_id d.fresh))

  unfoldable pub dispatch_job : CronJob → Dispatch → Exec World Unit
  dispatch_job job d = do
    tell (resolver job.session_id) (triggered job d)
    sent ← post job d
    after_send job d sent

  -- The loop over the claimed jobs. An exception leaves it.
  unfoldable pub dispatch_jobs : (CronJob → Dispatch) → Jobs → Exec World ℕ
  dispatch_jobs d [] = pure 0
  dispatch_jobs d (job ∷ jobs) = do
    finally (dispatch_job job (d job)) (discard job.id)
    n ← dispatch_jobs d jobs
    pure (suc n)

  -- A tick that is enabled.
  abbrev pub claim_and_dispatch : (now : String) → (CronJob → Dispatch) → Exec World ℕ
  claim_and_dispatch now d w =
      let (claimed, ids) =
        claim_jobs (list_due_jobs now config.max_due_jobs_per_tick w.jobs) w.dispatching_job_ids in
      dispatch_jobs d claimed (record w { dispatching_job_ids = ids })

  unfoldable pub run_pending : (now : String) → (CronJob → Dispatch) → Exec World ℕ
  run_pending now d w = if not config.enabled then (ok 0, w) else claim_and_dispatch now d w
