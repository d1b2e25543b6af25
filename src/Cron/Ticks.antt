-- ===== src/Cron/Ticks.antt =====
-- src/feather/core/scheduling/cron_scheduler.py: several calls of `run_pending` at once, the polling
-- loop and others, as steps between which any other call may run. A call claims its jobs under the
-- lock; then, for one job after the other, it dispatches the job and takes it off the set.
use feather_os.Prelude.{
  String, ◌≡◌, refl, sym, ap, ◌∙◌, true, List, [], ◌∷◌, ◌++◌, Option, append_assoc, All, IsKeyed,
  Result, ok, err, Error,
}
use feather_os.Mailbox.{Store}
use feather_os.Cron.Records.{CronJob, Platform, job_key}
use feather_os.Cron.Jobs.{Jobs, list_due_jobs}
use feather_os.Cron.Scheduler.{
  SchedulerConfig, Handler, World, Dispatch, dispatch_job, claim_jobs, discard, held,
}

-- Where a call stands: before the dispatch of its next job, or after it with the outcome.
pub data Tick : Type 0 where
  waiting : Jobs → Tick
  releasing : Result (Unit {0}) → CronJob → Jobs → Tick

-- The jobs that a call has claimed and not yet taken off the set.
abbrev pub jobs_of : Tick → Jobs
jobs_of (waiting jobs) = jobs
jobs_of (releasing r job jobs) = job ∷ jobs

abbrev pub all_jobs : List Tick → Jobs
all_jobs [] = []
all_jobs (t ∷ ts) = jobs_of t ++ all_jobs ts

pub record Ticking : Type 0 where
  pub world : World
  pub running : List Tick

abbrev pub begin : SchedulerConfig → String → Ticking → Ticking
begin config now t =
    let (claimed, ids) =
      claim_jobs (list_due_jobs now config.max_due_jobs_per_tick t.world.jobs)
        t.world.dispatching_job_ids in
    record {
      world = record t.world { dispatching_job_ids = ids };
      running = waiting claimed ∷ t.running;
    }

module _ (p : Platform) (config : SchedulerConfig) (resolver : String → Option Handler) where
  -- `edited` is any call on the two stores by a tool or a session.
  pub data Step (t : Ticking) : Ticking → Type 0 where
    begun : (now : String) → Step t (begin config now t)
    dispatched :
        (pre post : List Tick) (job : CronJob) (rest : Jobs) (d : Dispatch)
        → t.running ≡ pre ++ waiting (job ∷ rest) ∷ post
        → Step t (
            let (r, w) = dispatch_job p config resolver job d t.world in
            record { world = w; running = pre ++ releasing r job rest ∷ post })
    released :
        (pre post : List Tick) (job : CronJob) (rest : Jobs)
        → t.running ≡ pre ++ releasing (ok tt) job rest ∷ post
        → Step t (record { world = discard job.id t.world; running = pre ++ waiting rest ∷ post })
    aborted :
        (pre post : List Tick) (e : Error) (job : CronJob) (rest : Jobs)
        → t.running ≡ pre ++ releasing (err e) job rest ∷ post
        → Step t (record { world = discard job.id t.world; running = pre ++ post })
    edited :
        (jobs : Jobs) (mailbox : Store)
        → Step t (record t { world = record t.world { jobs = jobs; mailbox = mailbox } })

  pub data Reach (s : Ticking) : Ticking → Type 0 where
    here : Reach s s
    next : {t u : Ticking} → Reach s t → Step t u → Reach s u

-- No job is in the hands of two calls, or twice in the hands of one, and all are in the set.
pub record IsExclusive (t : Ticking) : Type 0 where
  pub distinct : IsKeyed job_key (all_jobs t.running)
  pub marked : All (λ j. held j.id t.world.dispatching_job_ids ≡ true) (all_jobs t.running)

pub all_jobs-append : (a b : List Tick) → all_jobs (a ++ b) ≡ all_jobs a ++ all_jobs b
all_jobs-append [] b = refl
all_jobs-append (t ∷ a) b =
    ap (λ l. jobs_of t ++ l) (all_jobs-append a b)
    ∙ sym (append_assoc (jobs_of t) (all_jobs a) (all_jobs b))
