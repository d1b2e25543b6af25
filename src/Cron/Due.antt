-- ===== src/Cron/Due.antt =====
-- An active job always has a due time, so that no tick can pass it over for ever.
use feather_os.Prelude.{
  String, ◌≡◌, refl, Bool, true, some, [], ◌∷◌, ◌++◌, Bool-cases, Option-cases, inl, inr, All,
  All-In, update, select, fetch, fetch-In, Exec, lift, ◌>>=◌, ◌>>◌, Result, ok, err, IsPreorder,
  Keeps, Keeps-require, Keeps-bind, Keeps-modify,
}
use feather_os.Cron.Records.{CronJob, job_key, is_active}
use feather_os.Cron.Jobs.{Jobs, get_job, update_job_fields}

-- An active job has a due time.
pub record HasDue (j : CronJob) : Type 0 where
  pub due : is_active j.status ≡ true → (t : String) × (j.next_run_at ≡ some t)

abbrev pub AllDue : Jobs → Type 0
AllDue jobs = All HasDue jobs

-- What a call owes to the jobs, whether it raises or not.
pub record KeepsDue (before after : Jobs) : Type 0 where
  pub keeps : AllDue before → AllDue after

pub KeepsDue-IsPreorder : IsPreorder KeepsDue
KeepsDue-IsPreorder = record {
  refl = λ s. record { keeps = λ a. a };
  trans = λ a b c p q. record { keeps = λ h. q.keeps (p.keeps h) };
}

pub AllDue-snoc : (jobs : Jobs) (j : CronJob) → AllDue jobs → HasDue j → AllDue (jobs ++ j ∷ [])
AllDue-snoc [] j a h = (h, tt)
AllDue-snoc (x ∷ jobs) j a h = (a.0, AllDue-snoc jobs j a.1 h)

AllDue-update :
    (p : CronJob → Bool) (f : CronJob → CronJob) (jobs : Jobs)
    → ((j : CronJob) → HasDue (f j))
    → AllDue jobs
    → AllDue (update p f jobs)
AllDue-update p f [] h a = tt
AllDue-update p f (x ∷ jobs) h a = elim (Bool-cases (p x)) [
  | inl t ↦ rw t (h x, AllDue-update p f jobs h a.1)
  | inr t ↦ rw t (a.0, AllDue-update p f jobs h a.1)
]

pub AllDue-select : (p : CronJob → Bool) (jobs : Jobs) → AllDue jobs → AllDue (select p jobs)
AllDue-select p [] a = tt
AllDue-select p (x ∷ jobs) a = elim (Bool-cases (p x)) [
  | inl t ↦ rw t (a.0, AllDue-select p jobs a.1)
  | inr t ↦ rw t (AllDue-select p jobs a.1)
]

-- A job that was read from the table has a due time if all have.
pub get_job-Keeps :
    {A : Type 0} (job_id : String) (f : CronJob → Exec Jobs A)
    → ((j : CronJob) → HasDue j → Keeps KeepsDue (f j))
    → Keeps KeepsDue (get_job job_id >>= f)
unfolding get_job
get_job-Keeps job_id f k = record {
  at = λ jobs. elim (Option-cases (fetch job_key job_id jobs)) [
    | inl missing ↦ rw missing (record { keeps = λ a. a })
    | inr (j, found) ↦ rw found (record {
      keeps = λ a.
          ((k j (All-In HasDue j jobs a (fetch-In job_key job_id j jobs found))).at jobs).keeps a;
    })
  ];
}

pub lift-Keeps :
    {A B : Type 0} (r : Result A) (f : A → Exec Jobs B)
    → ((a : A) → r ≡ ok a → Keeps KeepsDue (f a))
    → Keeps KeepsDue (lift r >>= f)
lift-Keeps (ok a) f k = k a refl
lift-Keeps (err e) f k = record { at = λ s. record { keeps = λ a. a } }

pub get_job-KeepsDue : (job_id : String) → Keeps KeepsDue (get_job job_id)
unfolding get_job
get_job-KeepsDue job_id = record {
  at = λ jobs. (Keeps-require KeepsDue-IsPreorder (fetch job_key job_id jobs) _).at jobs;
}

-- A write under which every row that it touches has a due time, and the row read back.
pub write-KeepsDue :
    (job_id : String) (values : CronJob → CronJob) (touched : String)
    → ((j : CronJob) → HasDue (record (values j) { updated_at = touched }))
    → Keeps KeepsDue (update_job_fields job_id values touched >> get_job job_id)
write-KeepsDue job_id values touched h =
    Keeps-bind KeepsDue-IsPreorder _ _
      (Keeps-modify _ (λ jobs. record { keeps = λ a. AllDue-update _ _ jobs h a }))
      (λ _. get_job-KeepsDue job_id)
