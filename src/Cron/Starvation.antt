-- ===== src/Cron/Starvation.antt =====
-- src/feather/core/scheduling/cron_scheduler.py: an exception that leaves `_dispatch_job` leaves
-- `run_pending` too, and the jobs behind it stay in `_dispatching_job_ids`.
use feather_os.Prelude.{
  String, ◌≡◌, refl, sym, ap, subst, ◌∙◌, true, false, Option, List, [], ◌∷◌, ◌++◌, str_eq,
  str_eq_iff, Bool-cases, inl, inr, All, All-map, All-append, All-cut, All-In, In, In-append_left,
  In-append_right, any_key_of_In, select, not, IsKeyed, ok, err, Error,
}
use feather_os.Cron.Records.{CronJob, Platform, job_key}
use feather_os.Cron.Jobs.{Jobs, list_due_jobs}
use feather_os.Cron.Scheduler.{SchedulerConfig, Handler, dispatch_job, claim_jobs, discard, held}
use feather_os.Cron.Bystanders.{dispatch_job-set}
use feather_os.Cron.Ticks.{
  Tick, waiting, releasing, all_jobs, Ticking, Step, begun, dispatched, released, aborted, edited,
  Reach, here, next, IsExclusive,
}
use feather_os.Cron.Exclusion.{
  Marked, Differs, any_key_All, str_eq_swap, claim_jobs-keeps, claim_jobs-Unmarked, IsKeyed-others,
  held-discard, split-at, join-at,
}

-- The id is in the set, and no call has the job.
pub record IsStarved (id : String) (t : Ticking) : Type 0 where
  pub inside : held id t.world.dispatching_job_ids ≡ true
  pub unclaimed : All (Differs id) (all_jobs t.running)

-- The jobs beside one in the middle differ from it.
others_of_In :
    (a gone b : Jobs) (j : CronJob)
    → IsKeyed job_key (a ++ (gone ++ b))
    → In j gone
    → All (Differs j.id) (a ++ b)
others_of_In [] [] b j k m = elim m [ ]
others_of_In [] (y ∷ gone) b j k (inl e) =
    subst (λ i. All (Differs i) b) (ap job_key (sym e))
      (All-cut _ [] gone b (any_key_All y.id (gone ++ b) k.0))
others_of_In [] (y ∷ gone) b j k (inr m) = others_of_In [] gone b j k.1 m
others_of_In (y ∷ a) gone b j k m = (
  elim (Bool-cases (str_eq y.id j.id)) [
    | inl t ↦ cc (
      k.0,
      any_key_of_In job_key y.id j (a ++ (gone ++ b))
          (In-append_right j a (gone ++ b) (In-append_left j gone b m))
          (sym ((str_eq_iff y.id j.id).0 t)),
    )
    | inr f ↦ f
  ],
  others_of_In a gone b j k.1 m,
)

claimed-Differs :
    (id : String) (due : Jobs) (ids : List String)
    → held id ids ≡ true
    → All (Differs id) (claim_jobs due ids).0
claimed-Differs id due ids h =
    All-map _ _ (claim_jobs due ids).0
      (λ j u. elim (Bool-cases (str_eq j.id id)) [
        | inl t ↦ cc (subst (λ i. held i ids ≡ false) ((str_eq_iff j.id id).0 t) u)
        | inr f ↦ f
      ])
      (claim_jobs-Unmarked due ids)

-- A release of another job.
release-IsStarved :
    (id : String) (a : Jobs) (job : CronJob) (gone b : Jobs) (ids : List String)
    → held id ids ≡ true
    → All (Differs id) (a ++ ((job ∷ gone) ++ b))
    → (held id (select (λ x. not (str_eq x job.id)) ids) ≡ true) × All (Differs id) (a ++ b)
release-IsStarved id a job gone b ids h u =
    let apart : Differs id job =
      All-In (Differs id) job (a ++ ((job ∷ gone) ++ b)) u
        (In-append_right job a ((job ∷ gone) ++ b) (inl refl)) in
    (held-discard id job.id ids (str_eq_swap job.id id apart) ∙ h, All-cut _ a (job ∷ gone) b u)

module _ (p : Platform) (config : SchedulerConfig) (resolver : String → Option Handler) where
  Step-IsStarved :
      (id : String) {t u : Ticking} → Step p config resolver t u → IsStarved id t → IsStarved id u
  Step-IsStarved id {t} (begun now) v =
      let due = list_due_jobs now config.max_due_jobs_per_tick t.world.jobs in
      let ids = t.world.dispatching_job_ids in
      record {
        inside = claim_jobs-keeps due ids id v.inside;
        unclaimed =
            All-append _ (claim_jobs due ids).0 (all_jobs t.running)
              (claimed-Differs id due ids v.inside) v.unclaimed;
      }
  Step-IsStarved id {t} (dispatched pre post job rest d e) v =
      let after = releasing (dispatch_job p config resolver job d t.world).0 job rest in
      record {
        inside = rw (dispatch_job-set p config resolver job d t.world) v.inside;
        unclaimed =
            join-at (All (Differs id)) pre (after ∷ post)
              (split-at (All (Differs id)) t.running pre post (waiting (job ∷ rest)) e v.unclaimed);
      }
  Step-IsStarved id {t} (released pre post job rest e) v =
      let (i, u) =
        release-IsStarved id (all_jobs pre) job [] (rest ++ all_jobs post)
          t.world.dispatching_job_ids v.inside
          (split-at (All (Differs id)) t.running pre post (releasing (ok tt) job rest) e
            v.unclaimed) in
      record { inside = i; unclaimed = join-at (All (Differs id)) pre (waiting rest ∷ post) u }
  Step-IsStarved id {t} (aborted pre post y job rest e) v =
      let (i, u) =
        release-IsStarved id (all_jobs pre) job rest (all_jobs post) t.world.dispatching_job_ids
          v.inside
          (split-at (All (Differs id)) t.running pre post (releasing (err y) job rest) e
            v.unclaimed) in
      record { inside = i; unclaimed = join-at (All (Differs id)) pre post u }
  Step-IsStarved id {t} (edited jobs mailbox) v = record {
    inside = v.inside;
    unclaimed = v.unclaimed;
  }

  Reach-IsStarved :
      (id : String) {s t : Ticking} → IsStarved id s → Reach p config resolver s t → IsStarved id t
  Reach-IsStarved id v here = v
  Reach-IsStarved id v (next r st) = Step-IsStarved id st (Reach-IsStarved id v r)

  -- If the dispatch of a job raises out of its call of run_pending, then no job that the call had
  -- claimed behind that one is ever claimed again: its id stays in the set, and no call has the job,
  -- whatever calls follow.
  pub aborted-IsStarved :
      (t u : Ticking) (pre post : List Tick) (e : Error) (job : CronJob) (rest : Jobs) (j : CronJob)
      → IsExclusive t
      → t.running ≡ pre ++ releasing (err e) job rest ∷ post
      → In j rest
      → Reach p config resolver (record { world = discard job.id t.world; running = pre ++ post }) u
      → IsStarved j.id u
  aborted-IsStarved t u pre post e job rest j v at m r =
      let ids = t.world.dispatching_job_ids in
      let x = releasing (err e) job rest in
      let k = split-at (IsKeyed job_key) t.running pre post x at v.distinct in
      let marked = split-at (All (Marked ids)) t.running pre post x at v.marked in
      let others = all_jobs pre ++ (rest ++ all_jobs post) in
      let place : In j others =
        In-append_right j (all_jobs pre) _ (In-append_left j rest (all_jobs post) m) in
      let apart : str_eq j.id job.id ≡ false =
        All-In (Differs job.id) j others (IsKeyed-others (all_jobs pre) job _ k) place in
      let was : Marked ids j =
        All-In (Marked ids) j (all_jobs pre ++ ((job ∷ rest) ++ all_jobs post)) marked
          (In-append_right j (all_jobs pre) _ (inr (In-append_left j rest (all_jobs post) m))) in
      Reach-IsStarved j.id
        (record {
          inside = held-discard j.id job.id ids apart ∙ was;
          unclaimed =
              join-at (All (Differs j.id)) pre post
                (others_of_In (all_jobs pre) (job ∷ rest) (all_jobs post) j k (inr m));
        })
        r
