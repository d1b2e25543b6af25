-- ===== src/Cron/Outcomes.antt =====
-- src/feather/core/scheduling/cron_scheduler.py: what the dispatch of one job that returns has done.
use feather_os.Prelude.{
  ℕ, String, ◌≡◌, refl, sym, ap, subst, ◌∙◌, true, false, Option, none, some, str_eq_refl,
  Bool-cases, Option-cases, ◌⊎◌, inl, inr, In, fetch, fetch-update, has_key, update, strip, Result,
  ok, err, Error, pure, bind-ok, ◌>>=◌,
}
use feather_os.Mailbox.{Store, Message, send, is_pending}
use feather_os.Mailbox.Replies.{send_inversion, send_stores, send_refuses}
use feather_os.Cron.Records.{CronJob, Platform, job_key, is_completed, active}
use feather_os.Cron.Jobs.{Jobs, get_job}
use feather_os.Cron.Edits.{mark_job_succeeded, mark_job_failed, failed}
use feather_os.Cron.Progress.{mark_job_succeeded-inversion, mark_job_succeeded-stored}
use feather_os.Cron.Scheduler.{
  SchedulerConfig, Notice, Handler, World, Dispatch, on_jobs, tell, scheduled_message,
  render_scheduled_message, post, after_send, dispatch_job, retry_at, triggered, put_off_notice,
}

module _ (p : Platform) (job_id error : String) (retry : ℕ) (touched : String) (jobs : Jobs) where
  abbrev retried : CronJob → CronJob
  retried j = record (failed p error retry j) { updated_at = touched }

  abbrev failed_jobs : Jobs
  failed_jobs = update (has_key job_key job_id) retried jobs

  retried-row :
      (job : CronJob)
      → fetch job_key job_id jobs ≡ some job
      → fetch job_key job_id failed_jobs ≡ some (retried job)
  retried-row job row =
      fetch-update job_key job_id job_id retried jobs (λ j. refl) ∙ rw (str_eq_refl job_id) (rw row)

  mark_job_failed-row :
      (job : CronJob)
      → fetch job_key job_id jobs ≡ some job
      → is_completed job.status ≡ false
      → mark_job_failed p job_id error retry touched jobs ≡ (ok (retried job), failed_jobs)
  unfolding mark_job_failed get_job
  mark_job_failed-row job row f = rw row (rw f (rw (retried-row job row)))

  -- The row that a failure leaves: a completed job stays as it is, any other is active and due at
  -- the retry time.
  pub mark_job_failed-stored :
      (j : CronJob)
      → (mark_job_failed p job_id error retry touched jobs).0 ≡ ok j
      → (row : CronJob) × (fetch job_key job_id
            (mark_job_failed p job_id error retry touched jobs).1
          ≡ some row)
        × ((is_completed row.status ≡ true)
            ⊎ ((row.status ≡ active) × (row.next_run_at ≡ some (p.isoformat retry))))
  unfolding mark_job_failed get_job
  mark_job_failed-stored j h = elim (Option-cases (fetch job_key job_id jobs)) [
    | inl missing ↦ cc (rw missing at h)
    | inr (job, row) ↦ elim (Bool-cases (is_completed job.status)) [
      | inl t ↦ (job, rw row (rw t row), inl t)
      | inr f ↦ (
        retried job,
        ap (λ (q : Result CronJob × Jobs). fetch job_key job_id q.1) (mark_job_failed-row job row f)
            ∙ retried-row job row,
        inr (refl, refl),
      )
    ]
  ]

tell-stores :
    (h : Option Handler) (notice : Notice) (w : World)
    → ((tell h notice w).1.jobs ≡ w.jobs) × ((tell h notice w).1.mailbox ≡ w.mailbox)
tell-stores none notice w = (refl, refl)
tell-stores (some handler) notice w = (refl, refl)

module _ (p : Platform) (config : SchedulerConfig) (resolver : String → Option Handler)
    (job : CronJob) (d : Dispatch) where
  -- The trigger waits in the mailbox of the job's agent, and the job's row remembers the run.
  pub record IsDelivered (w : World) : Type 0 where
    pub message : Message
    pub stored : In message w.mailbox.messages
    pub session : message.to_session_id ≡ job.session_id
    pub agent : message.to_agent_name ≡ job.agent_key
    pub waits : is_pending message.status ≡ true
    pub body : message.body ≡ strip (render_scheduled_message job (p.isoformat d.fired_at))
    pub row : CronJob
    pub fetched : fetch job_key job.id w.jobs ≡ some row
    pub ran : row.last_run_at ≡ some (p.isoformat d.fired_at)

  -- The mailbox is as it was, and the job's row is completed or due at the retry time.
  pub record IsPutOff (before after : World) : Type 0 where
    pub mailbox : after.mailbox ≡ before.mailbox
    pub row : CronJob
    pub fetched : fetch job_key job.id after.jobs ≡ some row
    pub retries :
        (is_completed row.status ≡ true)
        ⊎ ((row.status ≡ active)
            × (row.next_run_at ≡ some (p.isoformat (retry_at p config resolver d))))

  abbrev sent : World → Result Message × Store
  sent w =
      send (scheduled_message job (p.isoformat d.fired_at)) d.sent_at d.message_id d.fresh w.mailbox

  accepted-IsDelivered :
      (m : Message) (w w' : World)
      → (sent w).0 ≡ ok m
      → after_send p config resolver job d (ok m) (record w { mailbox = (sent w).1 }) ≡ (ok tt, w')
      → IsDelivered w'
  accepted-IsDelivered m w w' accepted h =
      let o = scheduled_message job (p.isoformat d.fired_at) in
      let (j, done, rest) =
        bind-ok (on_jobs (mark_job_succeeded p job.id d.fired_at d.touched)) (λ _. pure tt)
          (record w { mailbox = (sent w).1 }) w' tt h in
      let is : (record w {
        mailbox = (sent w).1;
        jobs = (mark_job_succeeded p job.id d.fired_at d.touched w.jobs).1;
      })
          ≡ w' =
        ap (λ (q : Result (Unit {0}) × World). q.1) rest in
      let (e, _) = send_inversion o d.sent_at d.message_id d.fresh w.mailbox m accepted in
      let (_, _, _, _, q) =
        mark_job_succeeded-inversion p job.id d.fired_at d.touched w.jobs j done in
      record {
        message = m;
        stored =
            subst (λ (x : World). In m x.mailbox.messages) is
              (send_stores o d.sent_at d.message_id d.fresh w.mailbox m accepted (λ c n. cc n));
        session = ap (λ (x : Message). x.to_session_id) e;
        agent = ap (λ (x : Message). x.to_agent_name) e;
        waits = ap (λ (x : Message). is_pending x.status) e;
        body = ap (λ (x : Message). x.body) e;
        row = j;
        fetched =
            subst (λ (x : World). fetch job_key job.id x.jobs ≡ some j) is
              (mark_job_succeeded-stored p job.id d.fired_at d.touched w.jobs j done);
        ran = ap (λ (x : CronJob). x.last_run_at) q;
      }

  refused-IsPutOff :
      (e : Error) (w w' : World)
      → (sent w).0 ≡ err e
      → after_send p config resolver job d (err e) (record w { mailbox = (sent w).1 }) ≡ (ok tt, w')
      → IsPutOff w w'
  refused-IsPutOff e w w' refused h =
      let o = scheduled_message job (p.isoformat d.fired_at) in
      let failure =
        mark_job_failed p job.id (p.error_text e) (retry_at p config resolver d) d.touched in
      let (j, done, rest) =
        bind-ok (on_jobs failure)
          (λ _. tell (resolver job.session_id) (put_off_notice p config resolver job d e))
          (record w { mailbox = (sent w).1 }) w' tt h in
      let after = record w { mailbox = (sent w).1; jobs = (failure w.jobs).1 } in
      let (same_jobs, same_mail) =
        tell-stores (resolver job.session_id) (put_off_notice p config resolver job d e) after in
      let is = ap (λ (q : Result (Unit {0}) × World). q.1) rest in
      let (row, fetched, retries) =
        mark_job_failed-stored p job.id (p.error_text e) (retry_at p config resolver d) d.touched
          w.jobs j done in
      record {
        mailbox =
            ap (λ (x : World). x.mailbox) (sym is)
            ∙ same_mail
            ∙ send_refuses o d.sent_at d.message_id d.fresh w.mailbox e refused;
        row = row;
        fetched =
            ap (λ (x : World). fetch job_key job.id x.jobs) (sym is)
            ∙ ap (fetch job_key job.id) same_jobs
            ∙ fetched;
        retries = retries;
      }

  after_send_lem :
      (r : Result Message) (w w' : World)
      → (sent w).0 ≡ r
      → after_send p config resolver job d r (record w { mailbox = (sent w).1 }) ≡ (ok tt, w')
      → IsDelivered w' ⊎ IsPutOff w w'
  after_send_lem (ok m) w w' e h = inl (accepted-IsDelivered m w w' e h)
  after_send_lem (err x) w w' e h = inr (refused-IsPutOff x w w' e h)

  -- If the dispatch of a job returns, then either the trigger waits, pending, in the mailbox of the
  -- job's agent and the job's row remembers the run, or the mailbox is as it was and the job's row
  -- is completed, or active and due again at the retry time.
  pub dispatch_job_lem :
      (w w' : World)
      → dispatch_job p config resolver job d w ≡ (ok tt, w')
      → IsDelivered w' ⊎ IsPutOff w w'
  unfolding dispatch_job
  dispatch_job_lem w w' h =
      let (_, told, rest) =
        bind-ok (tell (resolver job.session_id) (triggered p config resolver job d))
          (λ _. post p config resolver job d >>= after_send p config resolver job d) w w' tt h in
      let after = (tell (resolver job.session_id) (triggered p config resolver job d) w).1 in
      elim (after_send_lem (sent after).0 after w' refl rest) [
        | inl yes_sent ↦ inl yes_sent
        | inr put_off ↦ inr (record {
          mailbox =
              put_off.mailbox
              ∙ (tell-stores (resolver job.session_id) (triggered p config resolver job d) w).1;
          row = put_off.row;
          fetched = put_off.fetched;
          retries = put_off.retries;
        })
      ]
