-- ===== src/Cron/Examples.antt =====
-- The theorems on the scheduled prompts at concrete inputs.
use feather_os.Prelude.{
  ℕ, zero, suc, ◌+◌, ◌<◌, String, ◌≡◌, refl, true, false, Option, none, some, [], ◌∷◌, inl, ◌⊎◌,
  arith, str_leb, ok, err, value_error, order_by, strip,
}
use feather_os.Mailbox.{send, send_transaction, enforce_inbox_cap}
use feather_os.Cron.Records.{CronJob, Platform, active, cron, once, found}
use feather_os.Cron.Schedules.{compute_next_run_datetime}
use feather_os.Cron.Jobs.{Jobs, get_job, delete_job, list_due_jobs, is_due}
use feather_os.Cron.Edits.{mark_job_succeeded}
use feather_os.Cron.Due.{AllDue}
use feather_os.Cron.History
use feather_os.Cron.History.{Reach-AllDue}
use feather_os.Cron.Progress.{IsMonotone, mark_job_succeeded_not_due}
use feather_os.Cron.Scheduler.{
  SchedulerConfig, Handler, World, Dispatch, dispatch_job, dispatch_jobs, run_pending, discard,
  render_scheduled_message,
}
use feather_os.Cron.Outcomes.{IsDelivered, IsPutOff, dispatch_job_lem}
use feather_os.Cron.Passes.{IsPass, run_pending_lem}
use feather_os.Cron.Ticks
use feather_os.Cron.Ticks.{Ticking, Tick, waiting, releasing, begin, begun, IsExclusive}
use feather_os.Cron.Exclusion.{Reach-IsExclusive}
use feather_os.Cron.Starvation.{IsStarved, aborted-IsStarved}

-- A clock that writes times as tallies.
abbrev tally : ℕ → String
tally zero = ""
tally (suc n) = String.◌∷◌ "i" (tally n)

abbrev platform : Platform
platform = record {
  isoformat = tally;
  find_zone = λ key. found;
  next_cron = λ expression zone base. some (base + 1);
  parse_datetime = λ value zone. some 9;
  lower = λ s. s;
  error_text = λ e. "refused";
}

tally_ordered : (a b : ℕ) → a < b → str_leb (tally b) (tally a) ≡ false
unfolding str_leb
tally_ordered a zero h = elim h [ ]
tally_ordered zero (suc b) h = refl
tally_ordered (suc a) (suc b) h = tally_ordered a b (omega arith)

platform-IsMonotone : IsMonotone platform
platform-IsMonotone = record {
  later = λ e z base next h. let same : base + 1 ≡ next = cc in omega arith;
  ordered = tally_ordered;
}

abbrev daily : CronJob
daily = record {
  id = "a";
  session_id = "s";
  agent_key = "lead";
  name = "daily";
  schedule_type = cron;
  schedule_value = "0 9 * * *";
  timezone = "UTC";
  prompt = "summarize my open tasks";
  status = active;
  last_run_at = none;
  next_run_at = some "ii";
  last_error = none;
  created_at = "i";
  updated_at = "i";
}

abbrev reminder : CronJob
reminder = record daily {
  id = "b";
  name = "reminder";
  schedule_type = once;
  schedule_value = "2026";
  next_run_at = some "i";
}

abbrev jobs : Jobs
jobs = daily ∷ reminder ∷ []

jobs-AllDue : AllDue jobs
jobs-AllDue = (record { due = λ _. ("ii", refl) }, (record { due = λ _. ("i", refl) }, tt))

abbrev config : SchedulerConfig
config = record { enabled = true; max_due_jobs_per_tick = 5; failure_retry_seconds = 0 }

abbrev silent : String → Option Handler
silent s = none

abbrev world : World
world = record {
  dispatching_job_ids = [];
  jobs = jobs;
  mailbox = record { inbox_cap = 2; messages = [] };
  notices = [];
}

abbrev dispatch : CronJob → Dispatch
dispatch j = record {
  fired_at = 3;
  sent_at = "iii";
  message_id = j.id;
  fresh = "f";
  touched = "iii";
}

abbrev daily_after : CronJob
daily_after = record daily {
  last_run_at = some "iii";
  next_run_at = some "iiii";
  last_error = none;
  updated_at = "iii";
}

daily_succeeds : (mark_job_succeeded platform "a" 3 "iii" jobs).0 ≡ ok daily_after
unfolding mark_job_succeeded get_job compute_next_run_datetime strip
daily_succeeds = refl

mark_job_succeeded_not_due_example :
    (daily_after.id ≡ "a")
    × (daily_after.last_run_at ≡ some (tally 3))
    × (daily_after.last_error ≡ none)
    × (is_due (tally 2) daily_after ≡ false)
mark_job_succeeded_not_due_example =
    mark_job_succeeded_not_due platform platform-IsMonotone "a" 3 "iii" jobs daily_after 2
      daily_succeeds (omega arith)

-- The job runs, and another is put on the table and deleted again.
abbrev history : Jobs
history = (delete_job "b" (mark_job_succeeded platform "a" 3 "iii" jobs).1).1

Reach-AllDue_example : AllDue history
Reach-AllDue_example = Reach-AllDue {p = platform} {s = jobs} jobs-AllDue (
    History.next (History.next History.here (History.succeeded_at "a" 3 "iii"))
      (History.deleted "b"))

abbrev after_dispatch : World
after_dispatch = (dispatch_job platform config silent daily (dispatch daily) world).1

daily_dispatched :
    dispatch_job platform config silent daily (dispatch daily) world ≡ (ok tt, after_dispatch)
unfolding dispatch_job send send_transaction enforce_inbox_cap mark_job_succeeded get_job
    compute_next_run_datetime strip render_scheduled_message
daily_dispatched = refl

dispatch_job_lem_example :
    IsDelivered platform config silent daily (dispatch daily) after_dispatch
    ⊎ IsPutOff platform config silent daily (dispatch daily) world after_dispatch
dispatch_job_lem_example =
    dispatch_job_lem platform config silent daily (dispatch daily) world after_dispatch
      daily_dispatched

run_pending_runs : (run_pending platform config silent "iii" dispatch world).0 ≡ ok 2
unfolding run_pending dispatch_jobs dispatch_job list_due_jobs order_by str_leb send
    send_transaction enforce_inbox_cap mark_job_succeeded get_job compute_next_run_datetime strip
    render_scheduled_message
run_pending_runs = refl

abbrev after_pass : World
after_pass = (run_pending platform config silent "iii" dispatch world).1

run_pending_lem_example : IsPass platform config silent dispatch "iii" 2 world after_pass
run_pending_lem_example =
    run_pending_lem platform config silent dispatch "iii" 2 world run_pending_runs

abbrev idle : Ticking
idle = record { world = world; running = [] }

Reach-IsExclusive_example : IsExclusive (begin config "iv" (begin config "iii" idle))
Reach-IsExclusive_example =
    Reach-IsExclusive platform config silent {s = idle} (record { distinct = tt; marked = tt })
      (Ticks.next (Ticks.next Ticks.here (Ticks.begun "iii")) (Ticks.begun "iv"))

-- A call that has claimed two jobs and whose first dispatch raised.
abbrev failing : Ticking
failing = record {
  world = record world { dispatching_job_ids = "a" ∷ "b" ∷ [] };
  running = releasing (err (value_error "handler")) daily (reminder ∷ []) ∷ [];
}

failing-IsExclusive : IsExclusive failing
failing-IsExclusive = record { distinct = (refl, (refl, tt)); marked = (refl, (refl, tt)) }

abbrev dropped : Ticking
dropped = record { world = discard "a" failing.world; running = [] }

aborted-IsStarved_example : IsStarved "b" (begin config "iii" dropped)
aborted-IsStarved_example =
    aborted-IsStarved platform config silent failing (begin config "iii" dropped) [] []
      (value_error "handler") daily (reminder ∷ []) reminder failing-IsExclusive refl (inl refl)
      (Ticks.next Ticks.here (Ticks.begun "iii"))
