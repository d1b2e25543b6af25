-- ===== src/Cron/Passes.antt =====
-- src/feather/core/scheduling/cron_scheduler.py: a call of `run_pending` that returns.
use feather_os.Prelude.{
  subst, Result, sym, IsKeyed, str_eq_refl, ℕ, suc, ◌≤◌, String, ◌≡◌, refl, ap, ◌∙◌, Bool, true,
  false, not, ◌&&◌, ◌||◌, Option, List, [], ◌∷◌, str_eq, str_eq_iff, Bool-cases, ◌⊎◌, inl, inr,
  arith, length, length-take, any, select, fetch, has_key, ok, Exec, pure, finally, bind-returns,
  ◌>>=◌, if◌then◌else◌,
}
use feather_os.Cron.Records.{CronJob, Platform, job_key}
use feather_os.Cron.Jobs.{Jobs, list_due_jobs}
use feather_os.Cron.Scheduler.{
  SchedulerConfig, Handler, World, Dispatch, dispatch_job, dispatch_jobs, claim_and_dispatch,
  run_pending, claim_jobs, discard, held,
}
use feather_os.Cron.Bystanders.{dispatch_job-set, dispatch_job-Spares}

abbrev pub has_job : String → Jobs → Bool
has_job i jobs = any (has_key job_key i) jobs

held-discard_lem :
    (i k : String) (ids : List String)
    → held i (select (λ x. not (str_eq x k)) ids) ≡ (held i ids && not (str_eq k i))
held-discard_lem i k [] = refl
held-discard_lem i k (x ∷ ids) =
    ground (arith, held-discard_lem i k ids, str_eq_iff x i, str_eq_iff x k, str_eq_iff k i)

-- A call claims what is due and not in the set, and adds it to the set.
claim_jobs_lem :
    (due : Jobs) (ids : List String) (i : String)
    → (has_job i (claim_jobs due ids).0 ≡ (has_job i due && not (held i ids)))
      × (held i (claim_jobs due ids).1 ≡ (held i ids || has_job i due))
claim_jobs_lem [] ids i = ground arith
claim_jobs_lem (job ∷ due) ids i = elim (Bool-cases (held job.id ids)) [
  | inl t ↦ rw t (ground (arith, claim_jobs_lem due ids i, str_eq_iff job.id i))
  | inr f ↦ rw f (ground (arith, claim_jobs_lem due (job.id ∷ ids) i, str_eq_iff job.id i))
]

claim_jobs-IsKeyed : (due : Jobs) (ids : List String) → IsKeyed job_key (claim_jobs due ids).0
claim_jobs-IsKeyed [] ids = tt
claim_jobs-IsKeyed (job ∷ due) ids = elim (Bool-cases (held job.id ids)) [
  | inl t ↦ rw t (claim_jobs-IsKeyed due ids)
  | inr f ↦ rw f (
    ground (arith, claim_jobs_lem due (job.id ∷ ids) job.id, str_eq_refl job.id),
    claim_jobs-IsKeyed due (job.id ∷ ids),
  )
]

length-claim_jobs : (due : Jobs) (ids : List String) → length (claim_jobs due ids).0 ≤ length due
length-claim_jobs [] ids = omega arith
length-claim_jobs (job ∷ due) ids =
    ground (arith, length-claim_jobs due ids, length-claim_jobs due (job.id ∷ ids))

length-list_due_jobs :
    (now : String) (limit : ℕ) (jobs : Jobs) → length (list_due_jobs now limit jobs) ≤ limit
unfolding list_due_jobs
length-list_due_jobs now limit jobs = omega (arith, length-take {0} limit)

module _ (p : Platform) (config : SchedulerConfig) (resolver : String → Option Handler)
    (d : CronJob → Dispatch) where
  -- The dispatches of jobs one after the other, each of which returns; after each its job leaves the
  -- set.
  pub data Runs : List CronJob → World → World → Type 0 where
    finished : {w : World} → Runs [] w w
    runs :
        {job : CronJob} {jobs : List CronJob} {w after : World}
        → (dispatch_job p config resolver job (d job) w).0 ≡ ok tt
        → Runs jobs (discard job.id (dispatch_job p config resolver job (d job) w).1) after
        → Runs (job ∷ jobs) w after

  -- A call of run_pending that returned `n`, with the jobs that it dispatched and the set while it
  -- did.
  pub record IsPass (now : String) (n : ℕ) (w after : World) : Type 0 where
    pub jobs : List CronJob
    pub marked : List String
    pub counted : n ≡ length jobs
    pub bounded : n ≤ config.max_due_jobs_per_tick
    pub distinct : IsKeyed job_key jobs
    pub claimed :
        (i : String)
        → has_job i jobs ≡ (
            config.enabled
            && (has_job i (list_due_jobs now config.max_due_jobs_per_tick w.jobs)
                && not (held i w.dispatching_job_ids)))
    pub entered : (i : String) → held i marked ≡ (held i w.dispatching_job_ids || has_job i jobs)
    pub dispatched : Runs jobs (record w { dispatching_job_ids = marked }) after
    pub left : (i : String) → held i after.dispatching_job_ids ≡ held i w.dispatching_job_ids
    pub others :
        (i : String)
        → (has_job i (list_due_jobs now config.max_due_jobs_per_tick w.jobs) ≡ false)
          ⊎ (held i w.dispatching_job_ids ≡ true)
        → fetch job_key i after.jobs ≡ fetch job_key i w.jobs

  record Ran (jobs : Jobs) (n : ℕ) (before after : World) : Type 0 where
    counted : n ≡ length jobs
    steps : Runs jobs before after
    left :
        (i : String)
        → held i after.dispatching_job_ids
          ≡ (held i before.dispatching_job_ids && not (has_job i jobs))
    others :
        (i : String)
        → has_job i jobs ≡ false
        → fetch job_key i after.jobs ≡ fetch job_key i before.jobs

  one : CronJob → Exec World (Unit {0})
  one job = finally (dispatch_job p config resolver job (d job)) (discard job.id)

  one-set :
      (job : CronJob) (w : World) (i : String)
      → held i (one job w).1.dispatching_job_ids
        ≡ (held i w.dispatching_job_ids && not (str_eq job.id i))
  unfolding one
  one-set job w i =
      held-discard_lem i job.id (dispatch_job p config resolver job (d job) w).1.dispatching_job_ids
      ∙ rw (dispatch_job-set p config resolver job (d job) w)

  one-others :
      (job : CronJob) (w : World) (i : String)
      → str_eq job.id i ≡ false
      → fetch job_key i (one job w).1.jobs ≡ fetch job_key i w.jobs
  unfolding one
  one-others job w i other = ((dispatch_job-Spares i p config resolver job (d job) other).at w).row

  Ran-cons :
      (job : CronJob) (jobs : Jobs) (n : ℕ) (w after : World)
      → (one job w).0 ≡ ok tt
      → Ran jobs n (one job w).1 after
      → Ran (job ∷ jobs) (suc n) w after
  unfolding one
  Ran-cons job jobs n w after returns r = record {
    counted = ap suc r.counted;
    steps = runs returns r.steps;
    left = λ i. ground (arith, r.left i, one-set job w i);
    others = λ i none_of_them. r.others i (ground arith) ∙ one-others job w i (ground arith);
  }

  dispatch_jobs-Ran :
      (jobs : Jobs) (n : ℕ) (w : World)
      → (dispatch_jobs p config resolver d jobs w).0 ≡ ok n
      → Ran jobs n w (dispatch_jobs p config resolver d jobs w).1
  unfolding dispatch_jobs one
  dispatch_jobs-Ran [] n w h = record {
    counted = cc;
    steps = finished;
    left = λ i. ground arith;
    others = λ i no_job. refl;
  }
  dispatch_jobs-Ran (job ∷ jobs) n w h =
      let loop = dispatch_jobs p config resolver d jobs in
      let (_, returns, after_one) =
        bind-returns (one job) (λ _. loop >>= (λ k. pure (suc k))) w n h in
      let h' : ((loop >>= (λ k. pure (suc k))) (one job w).1).0 ≡ ok n = rw after_one at h in
      let (k, ran, after_loop) = bind-returns loop (λ k. pure (suc k)) (one job w).1 n h' in
      let last : ok (suc k) ≡ ok n = rw after_loop at h' in
      let count : n ≡ suc k = cc in
      rw (after_one, after_loop, count)
        (Ran-cons job jobs k w _ returns (dispatch_jobs-Ran jobs k (one job w).1 ran))

  claim_and_dispatch-IsPass :
      (now : String) (n : ℕ) (w : World)
      → config.enabled ≡ true
      → (claim_and_dispatch p config resolver now d w).0 ≡ ok n
      → IsPass now n w (claim_and_dispatch p config resolver now d w).1
  claim_and_dispatch-IsPass now n w on h =
      let ids = w.dispatching_job_ids in
      let due = list_due_jobs now config.max_due_jobs_per_tick w.jobs in
      let (claimed, marked) = claim_jobs due ids in
      let r = dispatch_jobs-Ran claimed n (record w { dispatching_job_ids = marked }) h in
      record {
        jobs = claimed;
        marked = marked;
        counted = r.counted;
        bounded = omega (
          arith,
          r.counted,
          length-claim_jobs due ids,
          length-list_due_jobs now config.max_due_jobs_per_tick w.jobs,
        );
        distinct = claim_jobs-IsKeyed due ids;
        claimed = λ i. ground (arith, claim_jobs_lem due ids i, on);
        entered = λ i. ground (arith, claim_jobs_lem due ids i);
        dispatched = r.steps;
        left = λ i. ground (arith, r.left i, claim_jobs_lem due ids i);
        others = λ i c. r.others i (ground (arith, claim_jobs_lem due ids i));
      }

  disabled-IsPass :
      (now : String) (n : ℕ) (w : World) → config.enabled ≡ false → 0 ≡ n → IsPass now n w w
  disabled-IsPass now n w off none_ran = record {
    jobs = [];
    marked = w.dispatching_job_ids;
    counted = sym none_ran;
    bounded = omega arith;
    distinct = tt;
    claimed = λ i. ground (arith, off);
    entered = λ i. ground arith;
    dispatched = finished;
    left = λ i. refl;
    others = λ i c. refl;
  }

  -- A call of run_pending that returns a number: that is the number of the jobs that it dispatched.
  -- These are the due jobs that were not in the set, each of them once, or none if the scheduler is
  -- disabled, and at most as many as the limit of a tick; they are in the set while the call runs;
  -- their dispatches ran one after the other and each returned. Afterwards the set of the jobs in
  -- dispatch is what it was before, and the row of each job that was not due, or that was in the set
  -- already, is as it was.
  pub run_pending_lem :
      (now : String) (n : ℕ) (w : World)
      → (run_pending p config resolver now d w).0 ≡ ok n
      → IsPass now n w (run_pending p config resolver now d w).1
  unfolding run_pending
  run_pending_lem now n w h = elim (Bool-cases config.enabled) [
    | inl on ↦
        subst (λ (r : Result ℕ × World). r.0 ≡ ok n → IsPass now n w r.1) (sym (ap choice on))
          (claim_and_dispatch-IsPass now n w on) h
    | inr off ↦
        subst (λ (r : Result ℕ × World). r.0 ≡ ok n → IsPass now n w r.1) (sym (ap choice off))
          (λ z. disabled-IsPass now n w off (zero_ran z)) h
  ]
    where
      choice : Bool → Result ℕ × World
      choice b = if not b then (ok 0, w) else claim_and_dispatch p config resolver now d w

      zero_ran : ok 0 ≡ ok n → 0 ≡ n
      zero_ran z = cc
