-- ===== src/Cron/History.antt =====
-- Any calls on the table of scheduled jobs, failed ones included.
use feather_os.Prelude.{
  List, str_eq, ℕ, String, ◌≡◌, refl, Bool, true, false, not, ◌&&◌, ◌||◌, Option, none, some, any,
  has_key, sym, Bool-cases, inl, inr, arith, strip, is_empty, Exec, require, refuse_if, raise_if,
  ◌>>=◌, ◌>>◌, Result, ok, err, Keeps, Keeps-pure, Keeps-refuse_if, Keeps-bind, Keeps-modify,
}
use feather_os.Tasks.Work.{Change, unset, set}
use feather_os.Cron.Records.{
  CronJob, Platform, job_key, is_active, is_completed, JobStatus, active, paused, completed, cron,
  once, ScheduleType,
}
use feather_os.Cron.Schedules.{compute_next_run_iso, schedule_changed}
use feather_os.Cron.Jobs.{Jobs, NewJob, new_job, insert_job, create_job, delete_job}
use feather_os.Cron.Edits.{
  JobChanges, Edit, changed_text, changed_option, stripped, some_text, next_run_after_edit,
  apply_edit, write_edit, update_job, next_run_after_success, status_after_success,
  mark_job_succeeded, mark_job_failed, succeeded, failed,
}
use feather_os.Cron.Due.{
  HasDue, AllDue, KeepsDue, KeepsDue-IsPreorder, AllDue-snoc, AllDue-select, AllDue-select,
  get_job-Keeps, lift-Keeps, get_job-KeepsDue, write-KeepsDue,
}

-- A check before a call, and a value that the call needs.
checked-KeepsDue :
    {A : Type 0} (failed : Bool) (message : String) (m : Exec Jobs A)
    → Keeps KeepsDue m
    → Keeps KeepsDue (raise_if failed message >> m)
checked-KeepsDue true message m k = record { at = λ s. record { keeps = λ a. a } }
checked-KeepsDue false message m k = k

required-KeepsDue :
    {A B : Type 0} (x : Option A) (message : String) (f : A → Exec Jobs B)
    → ((a : A) → Keeps KeepsDue (f a))
    → Keeps KeepsDue (require x message >>= f)
required-KeepsDue none message f k = record { at = λ s. record { keeps = λ a. a } }
required-KeepsDue (some a) message f k = k a

insert_job-KeepsDue :
    (sessions : List String) (j : CronJob) → HasDue j → Keeps KeepsDue (insert_job sessions j)
insert_job-KeepsDue sessions j h =
    Keeps-bind KeepsDue-IsPreorder (refuse_if (any (has_key job_key j.id))) _
      (Keeps-refuse_if KeepsDue-IsPreorder (any (has_key job_key j.id)))
      (λ _.
        Keeps-bind KeepsDue-IsPreorder
          (refuse_if (λ jobs. not (any (λ i. str_eq i j.session_id) sessions))) _
          (Keeps-refuse_if KeepsDue-IsPreorder _)
          (λ _. Keeps-modify _ (λ jobs. record { keeps = λ a. AllDue-snoc jobs j a h })))

create_job-KeepsDue :
    (p : Platform) (sessions : List String) (n : NewJob) (now : ℕ) (job_id : String)
    → Keeps KeepsDue (create_job p sessions n now job_id)
unfolding create_job
create_job-KeepsDue p sessions n now job_id =
    checked-KeepsDue (is_empty (strip n.name)) "Cron job `name` must not be empty." _ (
      checked-KeepsDue (is_empty (strip n.prompt)) "Cron job `prompt` must not be empty." _ (
        lift-Keeps (compute_next_run_iso p n.schedule_type n.schedule_value n.timezone now) _
          (λ next made.
            let j = new_job p n now next job_id in
            Keeps-bind KeepsDue-IsPreorder (insert_job sessions j) _
              (insert_job-KeepsDue sessions j (record { due = λ _. (next, refl) }))
              (λ _. get_job-KeepsDue job_id))))

some_text-due :
    (r : Result String) (next : Option String)
    → some_text r ≡ ok next
    → (t : String) × (next ≡ some t)
some_text-due (ok t) next e = (t, cc)
some_text-due (err x) next e = cc

active-open : (s : JobStatus) → is_active s ≡ true → is_completed s ≡ false
active-open active h = refl
active-open paused h = refl
active-open completed h = cc

-- An edit that leaves a job active leaves it a due time.
next_run_after_edit-due :
    (p : Platform) (job : CronJob) (e : Edit) (now : ℕ) (next : Option String)
    → HasDue job
    → next_run_after_edit p job e now ≡ ok next
    → is_active e.status ≡ true
    → (t : String) × (next ≡ some t)
unfolding next_run_after_edit
next_run_after_edit-due p job e now next h made on =
    let open_status : is_completed e.status ≡ false = active-open e.status on in
    elim (Bool-cases (
      schedule_changed job e.schedule_type e.schedule_value e.timezone
      || (not (is_active job.status) && is_active e.status))) [
        | inl t ↦
            some_text-due (compute_next_run_iso p e.schedule_type e.schedule_value e.timezone now)
              next (rw open_status at (rw t at made))
        | inr f ↦
            let same : ok job.next_run_at ≡ ok next = rw open_status at (rw f at made) in
            let was_active : is_active job.status ≡ true = ground (arith, on, f) in
            let (t, e') = h.due was_active in (t, cc)
      ]

write_edit-KeepsDue :
    (p : Platform) (job_id : String) (job : CronJob) (e : Edit) (now : ℕ) (touched : String)
    → HasDue job
    → Keeps KeepsDue (write_edit p job_id job e now touched)
unfolding write_edit
write_edit-KeepsDue p job_id job e now touched h =
    lift-Keeps (next_run_after_edit p job e now) _ (λ next made.
      write-KeepsDue job_id (apply_edit e next) touched
        (λ j. record { due = next_run_after_edit-due p job e now next h made }))

stripped-KeepsDue : (c : Change (Option String)) (old : String) → Keeps KeepsDue (stripped c old)
stripped-KeepsDue unset old = Keeps-pure KeepsDue-IsPreorder old
stripped-KeepsDue (set none) old = record { at = λ s. record { keeps = λ a. a } }
stripped-KeepsDue (set (some s)) old = Keeps-pure KeepsDue-IsPreorder (strip s)

update_job-KeepsDue :
    (p : Platform) (job_id : String) (c : JobChanges) (now : ℕ) (touched : String)
    → Keeps KeepsDue (update_job p job_id c now touched)
unfolding update_job
update_job-KeepsDue p job_id c now touched = get_job-Keeps job_id _ (λ job h.
    Keeps-bind KeepsDue-IsPreorder (stripped c.schedule_value job.schedule_value) _
      (stripped-KeepsDue c.schedule_value job.schedule_value)
      (λ value.
        Keeps-bind KeepsDue-IsPreorder (stripped c.timezone job.timezone) _
          (stripped-KeepsDue c.timezone job.timezone)
          (λ zone. checked-KeepsDue (is_empty (changed_text c.name job.name)) _ _ (
            checked-KeepsDue (is_empty (changed_text c.prompt job.prompt)) _ _ (
              required-KeepsDue (changed_option c.schedule_type job.schedule_type) _ _ (λ kind.
                checked-KeepsDue (is_empty value) _ _ (
                  checked-KeepsDue (is_empty zone) _ _ (
                    required-KeepsDue (changed_option c.status job.status) _ _
                      (λ status. write_edit-KeepsDue p job_id job _ now touched h)))))))))

-- A success that leaves a job active leaves it a due time.
next_run_after_success-due :
    (p : Platform) (job : CronJob) (at : ℕ) (next : Option String)
    → next_run_after_success p job at ≡ ok next
    → is_active (status_after_success job) ≡ true
    → (t : String) × (next ≡ some t)
next_run_after_success-due p job at next made on = by_type job.schedule_type refl
  where
    by_type : (k : ScheduleType) → job.schedule_type ≡ k → (t : String) × (next ≡ some t)
    by_type cron e =
        some_text-due (compute_next_run_iso p job.schedule_type job.schedule_value job.timezone at)
          next (rw (e, next_run_after_success) at made)
    by_type once e = cc (sym (rw e at on))

mark_job_succeeded-KeepsDue :
    (p : Platform) (job_id : String) (at : ℕ) (touched : String)
    → Keeps KeepsDue (mark_job_succeeded p job_id at touched)
unfolding mark_job_succeeded
mark_job_succeeded-KeepsDue p job_id at touched = get_job-Keeps job_id _ (λ job h.
    lift-Keeps (next_run_after_success p job at) _ (λ next made.
      write-KeepsDue job_id (succeeded p job at next) touched
        (λ j. record { due = next_run_after_success-due p job at next made })))

mark_job_failed-KeepsDue :
    (p : Platform) (job_id error : String) (retry_at : ℕ) (touched : String)
    → Keeps KeepsDue (mark_job_failed p job_id error retry_at touched)
unfolding mark_job_failed
mark_job_failed-KeepsDue p job_id error retry_at touched = get_job-Keeps job_id _ (λ job h.
    elim (Bool-cases (is_completed job.status)) [
      | inl t ↦ rw t (Keeps-pure KeepsDue-IsPreorder job)
      | inr f ↦ rw f (
          write-KeepsDue job_id (failed p error retry_at) touched
            (λ j. record { due = λ on. (p.isoformat retry_at, refl) }))
    ])

delete_job-AllDue :
    (job_id : String) (jobs : Jobs) → AllDue jobs → AllDue (delete_job job_id jobs).1
unfolding delete_job
delete_job-AllDue job_id jobs a = AllDue-select (λ j. not (has_key job_key job_id j)) jobs a

-- One call that writes to the table, by a tool, a session or the scheduler.
pub data Step (p : Platform) (jobs : Jobs) : Jobs → Type 0 where
  created :
      (sessions : List String) (n : NewJob) (now : ℕ) (job_id : String)
      → Step p jobs (create_job p sessions n now job_id jobs).1
  updated :
      (job_id : String) (c : JobChanges) (now : ℕ) (touched : String)
      → Step p jobs (update_job p job_id c now touched jobs).1
  deleted : (job_id : String) → Step p jobs (delete_job job_id jobs).1
  succeeded_at :
      (job_id : String) (at : ℕ) (touched : String)
      → Step p jobs (mark_job_succeeded p job_id at touched jobs).1
  failed_at :
      (job_id error : String) (retry_at : ℕ) (touched : String)
      → Step p jobs (mark_job_failed p job_id error retry_at touched jobs).1

pub data Reach (p : Platform) (jobs : Jobs) : Jobs → Type 0 where
  here : Reach p jobs jobs
  next : {t u : Jobs} → Reach p jobs t → Step p t u → Reach p jobs u

Step-AllDue : {p : Platform} {s t : Jobs} → Step p s t → AllDue s → AllDue t
Step-AllDue {p} {s} (created sessions n now job_id) a =
    ((create_job-KeepsDue p sessions n now job_id).at s).keeps a
Step-AllDue {p} {s} (updated job_id c now touched) a =
    ((update_job-KeepsDue p job_id c now touched).at s).keeps a
Step-AllDue {p} {s} (deleted job_id) a = delete_job-AllDue job_id s a
Step-AllDue {p} {s} (succeeded_at job_id at touched) a =
    ((mark_job_succeeded-KeepsDue p job_id at touched).at s).keeps a
Step-AllDue {p} {s} (failed_at job_id error retry_at touched) a =
    ((mark_job_failed-KeepsDue p job_id error retry_at touched).at s).keeps a

-- After any calls on a table in which every active job has a due time, failed calls included,
-- every active job has a due time.
pub Reach-AllDue : {p : Platform} {s t : Jobs} → AllDue s → Reach p s t → AllDue t
Reach-AllDue a here = a
Reach-AllDue a (next r st) = Step-AllDue st (Reach-AllDue a r)
