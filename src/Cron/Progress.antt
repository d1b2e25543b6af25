-- ===== src/Cron/Progress.antt =====
-- src/feather/storage/cron_store.py: which jobs a tick finds due, and what becomes of a job when it
-- ran.
use feather_os.Prelude.{
  ℕ, String, ◌≡◌, ◌<◌, ◌≤◌, refl, sym, ap, ◌∙◌, Bool, true, false, Option, none, some, str_eq_refl,
  str_leb, Bool-cases, Option-cases, ◌⊎◌, inl, inr, arith, All, All-In, In, length, fetch,
  fetch-update, fetch-key, has_key, update, asc_text, asc_text-IsOrder, IsSorted, take-IsTop,
  take_full, order_by, order_by-In, select, select-In, Result, Result-cases, ok, err, ◌&&◌, strip,
  is_empty,
}
use feather_os.Cron.Records.{CronJob, Platform, job_key, is_active, ScheduleType, cron, once}
use feather_os.Cron.Schedules.{
  compute_next_run_iso, compute_next_run_datetime, next_in_zone, iso_of, resolve_zone,
}
use feather_os.Cron.Jobs.{Jobs, get_job, list_due_jobs, next_run_text, is_due}
use feather_os.Cron.Edits.{next_run_after_success, mark_job_succeeded, succeeded, failed, some_text}
use feather_os.Cron.Due.{AllDue, HasDue}

-- An active job whose time has come.
pub record IsRipe (now : String) (j : CronJob) : Type 0 where
  pub on : is_active j.status ≡ true
  pub due : (t : String) × (j.next_run_at ≡ some t) × (str_leb t now ≡ true)

and_false : (b : Bool) → (b && false) ≡ false
and_false true = refl
and_false false = refl

is_due-IsRipe : (now : String) (j : CronJob) → is_due now j ≡ true → IsRipe now j
is_due-IsRipe now j h = elim (Option-cases j.next_run_at) [
  | inl missing ↦ cc (and_false (is_active j.status), rw missing at h)
  | inr (t, e) ↦ record { on = ground arith; due = (t, e, ground arith) }
]

IsRipe-is_due : (now : String) (j : CronJob) → IsRipe now j → is_due now j ≡ true
IsRipe-is_due now j r = let (t, e, h) = r.due in rw r.on (rw e h)

-- What a tick finds at a time: at most the limit of active jobs whose time has come, the earliest
-- first; where every active job has a due time, a job that is left out is not active, or has a later
-- time, or comes after all that are found and those fill the limit.
pub list_due_jobs_lem :
    (now : String) (limit : ℕ) (jobs : Jobs)
    → AllDue jobs
    → IsSorted (asc_text next_run_text) (list_due_jobs now limit jobs)
      × (length (list_due_jobs now limit jobs) ≤ limit)
      × ((j : CronJob) → In j (list_due_jobs now limit jobs) → In j jobs × IsRipe now j)
      × ((j : CronJob)
          → In j jobs
          → is_active j.status ≡ true
          → In j (list_due_jobs now limit jobs)
            ⊎ (str_leb (next_run_text j) now ≡ false)
            ⊎ ((length (list_due_jobs now limit jobs) ≡ limit)
                × All (λ i. asc_text next_run_text i j ≡ true) (list_due_jobs now limit jobs)))
unfolding list_due_jobs
list_due_jobs_lem now limit jobs a =
    let le = asc_text next_run_text in
    let top = take-IsTop le (asc_text-IsOrder next_run_text) (is_due now) jobs limit in
    (
      top.sorted,
      omega (arith, top.size),
      λ j i. let (here, fits) = top.sound j i in (here, is_due-IsRipe now j fits),
      λ j i on.
          let (t, e) = (All-In HasDue j jobs a i).due on in
          elim (Bool-cases (str_leb (next_run_text j) now)) [
            | inr later ↦ inr (inl later)
            | inl come ↦
                let ripe : is_due now j ≡ true =
                  IsRipe-is_due now j (record { on = on; due = (t, e, rw e at come) }) in
                elim (top.complete j i ripe) [
                  | inl listed ↦ inl listed
                  | inr after ↦
                      elim (take_full limit j (order_by le (select (is_due now) jobs))
                        (order_by-In le j _ (select-In (is_due now) j jobs i ripe))) [
                          | inl listed ↦ inl listed
                          | inr full ↦ inr (inr (full, after))
                        ]
                ]
          ],
    )

module _ (p : Platform) (job_id : String) (at : ℕ) (touched : String) (jobs : Jobs) where
  -- The row and the table that a success leaves.
  pub mark_job_succeeded-row :
      (job : CronJob) (next : Option String)
      → fetch job_key job_id jobs ≡ some job
      → next_run_after_success p job at ≡ ok next
      → mark_job_succeeded p job_id at touched jobs ≡ (
        ok (record (succeeded p job at next job) { updated_at = touched }),
        update
            (has_key job_key job_id)
            (λ j. record (succeeded p job at next j) { updated_at = touched })
            jobs,
      )
  unfolding mark_job_succeeded get_job
  mark_job_succeeded-row job next row made = rw row (
      rw made (
        rw
          (fetch-update job_key job_id job_id
            (λ j. record (succeeded p job at next j) { updated_at = touched }) jobs (λ j. refl))
          (rw (str_eq_refl job_id) (rw row))))

  pub mark_job_succeeded-inversion :
      (j : CronJob)
      → (mark_job_succeeded p job_id at touched jobs).0 ≡ ok j
      → (job : CronJob) × (next : Option String) × (fetch job_key job_id jobs ≡ some job)
        × (next_run_after_success p job at ≡ ok next)
        × (j ≡ record (succeeded p job at next job) { updated_at = touched })
  unfolding mark_job_succeeded get_job
  mark_job_succeeded-inversion j h = elim (Option-cases (fetch job_key job_id jobs)) [
    | inl missing ↦ cc (rw missing at h)
    | inr (job, row) ↦ elim (Result-cases (next_run_after_success p job at)) [
      | inl (next, made) ↦ (
        job,
        next,
        row,
        made,
        cc (h, ap (λ (q : Result CronJob × Jobs). q.0) (mark_job_succeeded-row job next row made)),
      )
      | inr (e, failed) ↦ cc (rw failed at (rw row at h))
    ]
  ]

  -- A success that returned left its row in the table.
  pub mark_job_succeeded-stored :
      (j : CronJob)
      → (mark_job_succeeded p job_id at touched jobs).0 ≡ ok j
      → fetch job_key job_id (mark_job_succeeded p job_id at touched jobs).1 ≡ some j
  mark_job_succeeded-stored j h =
      let (job, next, row, made, e) = mark_job_succeeded-inversion j h in
      rw (mark_job_succeeded-row job next row made) (
        rw
          (fetch-update job_key job_id job_id
            (λ j. record (succeeded p job at next j) { updated_at = touched }) jobs (λ j. refl))
          (rw (str_eq_refl job_id) (rw row (ap some (sym e)))))

-- What croniter and datetime document: the next occurrence is later than the base, and two UTC
-- datetimes stand in the order of their ISO texts.
pub record IsMonotone (p : Platform) : Type 0 where
  pub later :
      (expression zone : String) (base next : ℕ)
      → p.next_cron expression zone base ≡ some next
      → base < next
  pub ordered : (a b : ℕ) → a < b → str_leb (p.isoformat b) (p.isoformat a) ≡ false

module _ (p : Platform) (good : IsMonotone p) where
  next_in_zone_later :
      (raw : String) (base : ℕ) (zone : Result String) (n : ℕ)
      → next_in_zone p cron raw base zone ≡ ok n
      → base < n
  next_in_zone_later raw base (err e) n h = cc
  next_in_zone_later raw base (ok zone) n h = elim (Bool-cases (is_empty raw)) [
    | inl t ↦ cc (rw t at h)
    | inr f ↦ elim (Option-cases (p.next_cron raw zone base)) [
      | inl missing ↦ cc (rw missing at (rw f at h))
      | inr (m, e) ↦
          let same : ok m ≡ ok n = rw e at (rw f at h) in
          let m_n : m ≡ n = cc in rw (← m_n) (good.later raw zone base m e)
    ]
  ]

  iso_of_later :
      (r : Result ℕ) (base : ℕ) (t : String)
      → ((n : ℕ) → r ≡ ok n → base < n)
      → iso_of p r ≡ ok t
      → (n : ℕ) × (t ≡ p.isoformat n) × (base < n)
  iso_of_later (ok n) base t f h = (n, cc, f n refl)
  iso_of_later (err e) base t f h = cc

  -- The next run of a cron schedule is later than the base.
  next_run_later :
      (r : Result String) (base : ℕ) (next : Option String)
      → ((t : String) → r ≡ ok t → (n : ℕ) × (t ≡ p.isoformat n) × (base < n))
      → some_text r ≡ ok next
      → (n : ℕ) × (next ≡ some (p.isoformat n)) × (base < n)
  next_run_later (ok t) base next f h =
      let (n, e, lt) = f t refl in (n, let q : next ≡ some t = cc in rw (q, e), lt)
  next_run_later (err e) base next f h = cc

  succeeded_not_due :
      (job : CronJob) (at now : ℕ) (touched : String) (next : Option String) (kind : ScheduleType)
      → job.schedule_type ≡ kind
      → now ≤ at
      → next_run_after_success p job at ≡ ok next
      → is_due (p.isoformat now) (record (succeeded p job at next job) { updated_at = touched })
        ≡ false
  unfolding compute_next_run_datetime
  succeeded_not_due job at now touched next cron e le made =
      let (n, is, lt) =
        next_run_later (compute_next_run_iso p job.schedule_type job.schedule_value job.timezone at)
          at next
          (λ t h.
            iso_of_later _ at t
              (next_in_zone_later (strip job.schedule_value) at (resolve_zone p job.timezone))
              (rw e at h))
          (rw (e, next_run_after_success) at made) in
      rw is (rw (good.ordered now n (omega arith)) (and_false _))
  succeeded_not_due job at now touched next once e le made = rw e

  -- With a croniter whose next occurrence is later than its base and ISO texts in the order of the
  -- times: a job that succeeded at a time keeps its id, remembers that run and no error, and is not
  -- due at that time or before it, so that no tick at such a time runs it again.
  pub mark_job_succeeded_not_due :
      (job_id : String) (at : ℕ) (touched : String) (jobs : Jobs) (j : CronJob) (now : ℕ)
      → (mark_job_succeeded p job_id at touched jobs).0 ≡ ok j
      → now ≤ at
      → (j.id ≡ job_id)
        × (j.last_run_at ≡ some (p.isoformat at))
        × (j.last_error ≡ none)
        × (is_due (p.isoformat now) j ≡ false)
  mark_job_succeeded_not_due job_id at touched jobs j now h le =
      let (job, next, row, made, e) = mark_job_succeeded-inversion p job_id at touched jobs j h in
      (
        ap job_key e ∙ fetch-key job_key job_id job jobs row,
        ap (λ (x : CronJob). x.last_run_at) e,
        ap (λ (x : CronJob). x.last_error) e,
        rw e (succeeded_not_due job at now touched next job.schedule_type refl le made),
      )
