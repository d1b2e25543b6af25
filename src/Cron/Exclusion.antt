-- ===== src/Cron/Exclusion.antt =====
-- src/feather/core/scheduling/cron_scheduler.py: the set `_dispatching_job_ids` keeps concurrent
-- calls of `run_pending` apart.
use feather_os.Prelude.{
  String, ◌≡◌, refl, sym, ap, subst, ◌∙◌, true, false, Option, List, [], ◌∷◌, ◌++◌, str_eq,
  str_eq_iff, Bool-cases, inl, inr, arith, All, All-map, All-append, All-cut, any, has_key, select,
  not, IsKeyed, ok, err,
}
use feather_os.Cron.Records.{CronJob, Platform, job_key}
use feather_os.Cron.Jobs.{Jobs, list_due_jobs}
use feather_os.Cron.Scheduler.{SchedulerConfig, Handler, dispatch_job, claim_jobs, discard, held}
use feather_os.Cron.Bystanders.{dispatch_job-set}
use feather_os.Cron.Ticks.{
  Tick, waiting, releasing, jobs_of, all_jobs, Ticking, Step, begun, dispatched, released, aborted,
  edited, Reach, here, next, IsExclusive, all_jobs-append,
}

abbrev pub Marked : List String → CronJob → Type 0
Marked ids j = held j.id ids ≡ true

abbrev pub Unmarked : List String → CronJob → Type 0
Unmarked ids j = held j.id ids ≡ false

any-cut :
    (k : String) (a r b : Jobs)
    → any (has_key job_key k) (a ++ (r ++ b)) ≡ false
    → any (has_key job_key k) (a ++ b) ≡ false
any-cut k [] [] b h = h
any-cut k [] (x ∷ r) b h = any-cut k [] r b (ground arith)
any-cut k (x ∷ a) r b h = ground (arith, any-cut k a r b)

IsKeyed-cut : (a r b : Jobs) → IsKeyed job_key (a ++ (r ++ b)) → IsKeyed job_key (a ++ b)
IsKeyed-cut [] [] b h = h
IsKeyed-cut [] (x ∷ r) b h = IsKeyed-cut [] r b h.1
IsKeyed-cut (x ∷ a) r b h = (any-cut x.id a r b h.0, IsKeyed-cut a r b h.1)

-- The job has another id.
abbrev pub Differs : String → CronJob → Type 0
Differs id j = str_eq j.id id ≡ false

any_key_false : (k : String) (xs : Jobs) → All (Differs k) xs → any (has_key job_key k) xs ≡ false
any_key_false k [] a = refl
any_key_false k (x ∷ xs) a = rw a.0 (any_key_false k xs a.1)

pub any_key_All : (k : String) (xs : Jobs) → any (has_key job_key k) xs ≡ false → All (Differs k) xs
any_key_All k [] h = tt
any_key_All k (x ∷ xs) h = (ground arith, any_key_All k xs (ground arith))

-- A job in the middle differs from all the others.
pub IsKeyed-others :
    (a : Jobs) (x : CronJob) (b : Jobs) → IsKeyed job_key (a ++ x ∷ b) → All (Differs x.id) (a ++ b)
IsKeyed-others [] x b h = any_key_All x.id b h.0
IsKeyed-others (y ∷ a) x b h = (apart a h.0, IsKeyed-others a x b h.1)
  where
    apart : (a : Jobs) → any (has_key job_key y.id) (a ++ x ∷ b) ≡ false → str_eq y.id x.id ≡ false
    apart [] e = ground (arith, str_eq_iff x.id y.id, str_eq_iff y.id x.id)
    apart (z ∷ a) e = apart a (ground arith)

-- The claims of a call.
pub claim_jobs-keeps :
    (due : Jobs) (ids : List String) (i : String)
    → held i ids ≡ true
    → held i (claim_jobs due ids).1 ≡ true
claim_jobs-keeps [] ids i h = h
claim_jobs-keeps (job ∷ due) ids i h = elim (Bool-cases (held job.id ids)) [
  | inl t ↦ rw t (claim_jobs-keeps due ids i h)
  | inr f ↦ rw f (claim_jobs-keeps due (job.id ∷ ids) i (ground arith))
]

pub claim_jobs-Unmarked :
    (due : Jobs) (ids : List String) → All (Unmarked ids) (claim_jobs due ids).0
claim_jobs-Unmarked [] ids = tt
claim_jobs-Unmarked (job ∷ due) ids = elim (Bool-cases (held job.id ids)) [
  | inl t ↦ rw t (claim_jobs-Unmarked due ids)
  | inr f ↦ rw f (
    f,
    All-map _ _ (claim_jobs due (job.id ∷ ids)).0 (λ j m. ground arith)
        (claim_jobs-Unmarked due (job.id ∷ ids)),
  )
]

claim_jobs-Marked :
    (due : Jobs) (ids : List String) → All (Marked (claim_jobs due ids).1) (claim_jobs due ids).0
claim_jobs-Marked [] ids = tt
claim_jobs-Marked (job ∷ due) ids = elim (Bool-cases (held job.id ids)) [
  | inl t ↦ rw t (claim_jobs-Marked due ids)
  | inr f ↦ rw f (
    claim_jobs-keeps due (job.id ∷ ids) job.id (rw ((str_eq_iff job.id job.id).1 refl)),
    claim_jobs-Marked due (job.id ∷ ids),
  )
]

claim_jobs-IsKeyed :
    (due : Jobs) (ids : List String) (others : Jobs)
    → All (Marked ids) others
    → IsKeyed job_key others
    → IsKeyed job_key ((claim_jobs due ids).0 ++ others)
claim_jobs-IsKeyed [] ids others m k = k
claim_jobs-IsKeyed (job ∷ due) ids others m k = elim (Bool-cases (held job.id ids)) [
  | inl t ↦ rw t (claim_jobs-IsKeyed due ids others m k)
  | inr f ↦ rw f (
    any_key_false job.id ((claim_jobs due (job.id ∷ ids)).0 ++ others) (
        All-append _ (claim_jobs due (job.id ∷ ids)).0 others
          (All-map _ _ (claim_jobs due (job.id ∷ ids)).0
            (λ j u. ground (arith, str_eq_iff j.id job.id, str_eq_iff job.id j.id))
            (claim_jobs-Unmarked due (job.id ∷ ids)))
          (All-map _ _ others
            (λ j u. elim (Bool-cases (str_eq j.id job.id)) [
              | inl s ↦ cc (subst (λ i. held i ids ≡ true) ((str_eq_iff j.id job.id).0 s) u)
              | inr d ↦ d
            ])
            m)),
    claim_jobs-IsKeyed due (job.id ∷ ids) others (All-map _ _ others (λ j u. ground arith) m) k,
  )
]

pub str_eq_swap : (s t : String) → str_eq s t ≡ false → str_eq t s ≡ false
str_eq_swap s t h = ground (arith, str_eq_iff s t, str_eq_iff t s)

-- Another job stays in the set.
pub held-discard :
    (i k : String) (ids : List String)
    → str_eq i k ≡ false
    → held i (select (λ x. not (str_eq x k)) ids) ≡ held i ids
held-discard i k [] d = refl
held-discard i k (x ∷ ids) d =
    ground (arith, held-discard i k ids d, str_eq_iff x i, str_eq_iff x k, str_eq_iff i k)

Marked-discard :
    (k : String) (ids : List String) (xs : Jobs)
    → All (Differs k) xs
    → All (Marked ids) xs
    → All (Marked (select (λ x. not (str_eq x k)) ids)) xs
Marked-discard k ids [] a m = tt
Marked-discard k ids (j ∷ xs) a m =
    (held-discard j.id k ids a.0 ∙ m.0, Marked-discard k ids xs a.1 m.1)

-- A call that leaves the set together with the job that it dispatched, and with some of the jobs
-- behind that one.
release-IsExclusive :
    (a gone b : Jobs) (job : CronJob) (ids : List String)
    → IsKeyed job_key (a ++ ((job ∷ gone) ++ b))
    → All (Marked ids) (a ++ ((job ∷ gone) ++ b))
    → IsKeyed job_key (a ++ b) × All (Marked (select (λ x. not (str_eq x job.id)) ids)) (a ++ b)
release-IsExclusive a gone b job ids k m = (
  IsKeyed-cut a (job ∷ gone) b k,
  Marked-discard job.id ids (a ++ b) (All-cut _ a gone b (IsKeyed-others a job (gone ++ b) k))
      (All-cut _ a (job ∷ gone) b m),
)

-- One call among those that run.
pub split-at :
    (P : Jobs → Type 0) (running pre post : List Tick) (x : Tick)
    → running ≡ pre ++ x ∷ post
    → P (all_jobs running)
    → P (all_jobs pre ++ (jobs_of x ++ all_jobs post))
split-at P running pre post x e h = subst P (ap all_jobs e ∙ all_jobs-append pre (x ∷ post)) h

pub join-at :
    (P : Jobs → Type 0) (pre ticks : List Tick)
    → P (all_jobs pre ++ all_jobs ticks)
    → P (all_jobs (pre ++ ticks))
join-at P pre ticks h = subst P (sym (all_jobs-append pre ticks)) h

module _ (p : Platform) (config : SchedulerConfig) (resolver : String → Option Handler) where
  pub Step-IsExclusive :
      {t u : Ticking} → Step p config resolver t u → IsExclusive t → IsExclusive u
  Step-IsExclusive {t} (begun now) v =
      let due = list_due_jobs now config.max_due_jobs_per_tick t.world.jobs in
      let ids = t.world.dispatching_job_ids in
      record {
        distinct = claim_jobs-IsKeyed due ids (all_jobs t.running) v.marked v.distinct;
        marked =
            All-append _ (claim_jobs due ids).0 (all_jobs t.running) (claim_jobs-Marked due ids)
              (All-map _ _ (all_jobs t.running) (λ j m. claim_jobs-keeps due ids j.id m) v.marked);
      }
  Step-IsExclusive {t} (dispatched pre post job rest d e) v =
      let after = releasing (dispatch_job p config resolver job d t.world).0 job rest in
      let P = All (Marked t.world.dispatching_job_ids) in
      record {
        distinct =
            join-at (IsKeyed job_key) pre (after ∷ post)
              (split-at (IsKeyed job_key) t.running pre post (waiting (job ∷ rest)) e v.distinct);
        marked = rw (dispatch_job-set p config resolver job d t.world) (
            join-at P pre (after ∷ post)
              (split-at P t.running pre post (waiting (job ∷ rest)) e v.marked));
      }
  Step-IsExclusive {t} (released pre post job rest e) v =
      let x = releasing (ok tt) job rest in
      let ids = t.world.dispatching_job_ids in
      let (k, m) =
        release-IsExclusive (all_jobs pre) [] (rest ++ all_jobs post) job ids
          (split-at (IsKeyed job_key) t.running pre post x e v.distinct)
          (split-at (All (Marked ids)) t.running pre post x e v.marked) in
      record {
        distinct = join-at (IsKeyed job_key) pre (waiting rest ∷ post) k;
        marked =
            join-at (All (Marked (discard job.id t.world).dispatching_job_ids)) pre
              (waiting rest ∷ post) m;
      }
  Step-IsExclusive {t} (aborted pre post y job rest e) v =
      let x = releasing (err y) job rest in
      let ids = t.world.dispatching_job_ids in
      let (k, m) =
        release-IsExclusive (all_jobs pre) rest (all_jobs post) job ids
          (split-at (IsKeyed job_key) t.running pre post x e v.distinct)
          (split-at (All (Marked ids)) t.running pre post x e v.marked) in
      record {
        distinct = join-at (IsKeyed job_key) pre post k;
        marked = join-at (All (Marked (discard job.id t.world).dispatching_job_ids)) pre post m;
      }
  Step-IsExclusive {t} (edited jobs mailbox) v = record { distinct = v.distinct; marked = v.marked }

  -- Whatever calls of run_pending run at once, and however their steps and other calls interleave:
  -- if no job is claimed twice and all claimed jobs are in the set, that stays so.
  pub Reach-IsExclusive :
      {s t : Ticking} → IsExclusive s → Reach p config resolver s t → IsExclusive t
  Reach-IsExclusive v here = v
  Reach-IsExclusive v (next r st) = Step-IsExclusive st (Reach-IsExclusive v r)
