-- ===== src/Cron/Bystanders.antt =====
-- src/feather/core/scheduling/cron_scheduler.py: what the dispatch of one job leaves alone, whether
-- it raises or not: the set of the jobs in dispatch, and the row of every other job.
use feather_os.Prelude.{
  ℕ, String, ◌≡◌, refl, ◌∙◌, false, Option, none, some, str_eq, str_eq_iff, Bool-cases, inl, inr,
  fetch, fetch-update, Exec, lift, ◌>>◌, Result, ok, err, IsPreorder, Keeps, Keeps-pure, Keeps-lift,
  Keeps-require, Keeps-bind, Keeps-modify,
}
use feather_os.Mailbox.{Message}
use feather_os.Cron.Records.{CronJob, Platform, job_key, is_completed}
use feather_os.Cron.Jobs.{Jobs, get_job, update_job_fields}
use feather_os.Cron.Edits.{
  next_run_after_success, mark_job_succeeded, mark_job_failed, succeeded, failed,
}
use feather_os.Cron.Scheduler.{
  SchedulerConfig, Notice, Handler, World, Dispatch, on_jobs, tell, after_send, post, dispatch_job,
  retry_at,
}

-- The row of `id` is as it was.
pub record SameRow (id : String) (before after : Jobs) : Type 0 where
  pub row : fetch job_key id after ≡ fetch job_key id before

-- So is the set of the jobs in dispatch.
pub record Spares (id : String) (before after : World) : Type 0 where
  pub row : fetch job_key id after.jobs ≡ fetch job_key id before.jobs
  pub set : after.dispatching_job_ids ≡ before.dispatching_job_ids

module _ (id : String) where
  SameRow-IsPreorder : IsPreorder (SameRow id)
  SameRow-IsPreorder = record {
    refl = λ s. record { row = refl };
    trans = λ a b c p q. record { row = q.row ∙ p.row };
  }

  pub Spares-IsPreorder : IsPreorder (Spares id)
  Spares-IsPreorder = record {
    refl = λ s. record { row = refl; set = refl };
    trans = λ a b c p q. record { row = q.row ∙ p.row; set = q.set ∙ p.set };
  }

  module _ (job_id : String) (other : str_eq job_id id ≡ false) where
    read-SameRow : Keeps (SameRow id) (get_job job_id)
    unfolding get_job
    read-SameRow = record {
      at = λ jobs. (Keeps-require SameRow-IsPreorder (fetch job_key job_id jobs) _).at jobs;
    }

    write-SameRow :
        (values : CronJob → CronJob) (touched : String)
        → ((j : CronJob) → (values j).id ≡ j.id)
        → Keeps (SameRow id) (update_job_fields job_id values touched >> get_job job_id)
    write-SameRow values touched keeps =
        Keeps-bind SameRow-IsPreorder (update_job_fields job_id values touched)
          (λ _. get_job job_id)
          (Keeps-modify _
            (λ jobs. record { row = fetch-update job_key job_id id _ jobs keeps ∙ (rw other) }))
          (λ _. read-SameRow)

    mark_job_succeeded-SameRow :
        (p : Platform) (at : ℕ) (touched : String)
        → Keeps (SameRow id) (mark_job_succeeded p job_id at touched)
    unfolding mark_job_succeeded
    mark_job_succeeded-SameRow p at touched =
        Keeps-bind SameRow-IsPreorder (get_job job_id) _ read-SameRow (λ job.
          Keeps-bind SameRow-IsPreorder (lift (next_run_after_success p job at)) _
            (Keeps-lift SameRow-IsPreorder (next_run_after_success p job at))
            (λ next. write-SameRow (succeeded p job at next) touched (λ j. refl)))

    mark_job_failed-SameRow :
        (p : Platform) (error : String) (retry : ℕ) (touched : String)
        → Keeps (SameRow id) (mark_job_failed p job_id error retry touched)
    unfolding mark_job_failed
    mark_job_failed-SameRow p error retry touched =
        Keeps-bind SameRow-IsPreorder (get_job job_id) _ read-SameRow (λ job.
          elim (Bool-cases (is_completed job.status)) [
            | inl t ↦ rw t (Keeps-pure SameRow-IsPreorder job)
            | inr f ↦ rw f (write-SameRow (failed p error retry) touched (λ j. refl))
          ])

  on_jobs-Spares :
      {A : Type 0} (m : Exec Jobs A) → Keeps (SameRow id) m → Keeps (Spares id) (on_jobs m)
  on_jobs-Spares m k = record { at = λ w. record { row = (k.at w.jobs).row; set = refl } }

  tell-Spares : (h : Option Handler) (notice : Notice) → Keeps (Spares id) (tell h notice)
  tell-Spares none notice = Keeps-pure Spares-IsPreorder tt
  tell-Spares (some handler) notice =
      Keeps-bind Spares-IsPreorder _ _ (Keeps-modify _ (λ w. record { row = refl; set = refl }))
        (λ _. Keeps-lift Spares-IsPreorder (handler notice))

  module _ (p : Platform) (config : SchedulerConfig) (resolver : String → Option Handler)
      (job : CronJob) (d : Dispatch) (other : str_eq job.id id ≡ false) where
    after_send-Spares :
        (sent : Result Message) → Keeps (Spares id) (after_send p config resolver job d sent)
    after_send-Spares (err e) =
        Keeps-bind Spares-IsPreorder _ _
          (on_jobs-Spares _ (
            mark_job_failed-SameRow job.id other p (p.error_text e) (retry_at p config resolver d)
              d.touched))
          (λ _. tell-Spares (resolver job.session_id) _)
    after_send-Spares (ok m) =
        Keeps-bind Spares-IsPreorder _ _
          (on_jobs-Spares _ (mark_job_succeeded-SameRow job.id other p d.fired_at d.touched))
          (λ _. Keeps-pure Spares-IsPreorder tt)

    pub dispatch_job-Spares : Keeps (Spares id) (dispatch_job p config resolver job d)
    unfolding dispatch_job
    dispatch_job-Spares =
        Keeps-bind Spares-IsPreorder _ _ (tell-Spares (resolver job.session_id) _) (λ _.
          Keeps-bind Spares-IsPreorder (post p config resolver job d)
            (after_send p config resolver job d)
            (record { at = λ w. record { row = refl; set = refl } }) after_send-Spares)

-- Some other text.
abbrev other_of : String → String
other_of String.[] = "x"
other_of (String.◌∷◌ c s) = ""

other_of-ne : (s : String) → str_eq s (other_of s) ≡ false
other_of-ne String.[] = refl
other_of-ne (String.◌∷◌ c s) = elim (Bool-cases (str_eq (String.◌∷◌ c s) "")) [
  | inl t ↦ cc ((str_eq_iff (String.◌∷◌ c s) "").0 t)
  | inr f ↦ f
]

pub dispatch_job-set :
    (p : Platform) (config : SchedulerConfig) (resolver : String → Option Handler) (job : CronJob)
    (d : Dispatch) (w : World)
    → (dispatch_job p config resolver job d w).1.dispatching_job_ids ≡ w.dispatching_job_ids
dispatch_job-set p config resolver job d w =
    ((dispatch_job-Spares (other_of job.id) p config resolver job d (other_of-ne job.id)).at w).set
