-- ===== src/Subagents/Examples.antt =====
-- The theorems on the sub-agents at concrete inputs.
use feather_os.Prelude.{
  ℕ, ◌-◌, pos, String, ◌<>◌, ◌≡◌, refl, true, ◌&&◌, none, some, [], ◌∷◌, arith, any, has_key, leb,
  length, strip, order_by, str_leb, clean_optional, Result, ok,
}
use feather_os.Mailbox.{send, send_transaction, enforce_inbox_cap}
use feather_os.Tasks.Records.{
  Db, Stamp, Task, TaskOutput, running, completed_with_artifacts, artifact,
}
use feather_os.Tasks.Events.{get_task, get_event, insert_event, add_event}
use feather_os.Tasks.Work.{update_task, update_task_fields}
use feather_os.Tasks.Outputs.{add_output, list_outputs, get_output, insert_output}
use feather_os.Subagents.Registry.{
  LiveSubagent, SubagentRegistry, grave_key, graveyard_ttl, register, remove, is_recently_exited,
  get,
}
use feather_os.Subagents.Graveyard.{IsTidy, is_recently_exited_lem}
use feather_os.Subagents.Upkeep
use feather_os.Subagents.Upkeep.{registered, removed, asked, Reach-IsTidy}
use feather_os.Subagents.Reports.{
  Envelope, extract_envelope, after_marker, before_marker, result_begin, result_end, render_body,
  tail_of,
}
use feather_os.Subagents.Verdicts.{Draws, update_task_state}
use feather_os.Subagents.Reaper.{World, Remains, Moment, reap_exited}
use feather_os.Subagents.Terminate.{terminate_agent}
use feather_os.Subagents.Calls
use feather_os.Subagents.Calls.{
  reaping, terminating, Setting, Books, spawn, ask_for, proceed, spawns, reaps, terminates, resumes,
}
use feather_os.Subagents.Ownership.{IsAccounted, Reach-IsAccounted}
use feather_os.Subagents.Settled.{IsLeft, update_task_state_lem}

abbrev child : LiveSubagent
child = record {
  session_id = "c";
  agent_name = "explore";
  parent_session_id = "p";
  parent_agent_name = "lead";
  task_text = "survey the parsers";
  correlation_id = none;
  task_id = some "t";
  task_run_id = none;
}

abbrev nobody : SubagentRegistry
nobody = record { live = []; graveyard = [] }

abbrev survey : Task
survey = record {
  id = "t";
  plan_id = none;
  parent_task_id = none;
  title = "survey";
  description = "";
  success_criteria = "";
  required_outputs = [];
  status = running;
  responsible_agent_name = some "explore";
  responsible_session_id = some "c";
  lead_session_id = "p";
  blocked_question = none;
  blocked_correlation_id = none;
  error = none;
  created_at = "2026-05-01T10:00:00+00:00";
  updated_at = "2026-05-01T10:00:00+00:00";
}

abbrev plot : TaskOutput
plot = record {
  id = "o";
  task_id = "t";
  kind = artifact;
  path = some "/tmp/plot.png";
  content = none;
  summary = "";
  created_by_session_id = "c";
  validated = true;
  is_final = true;
  created_at = "2026-05-01T11:00:00+00:00";
}

abbrev tables : Db
tables = record { plans = []; tasks = survey ∷ []; runs = []; outputs = plot ∷ []; events = [] }

abbrev stamp : String → Stamp
stamp id = record { id = id; now = "2026-05-01T12:00:00+00:00" }

abbrev draws : Draws
draws = record {
  ended_at = "2026-05-01T12:00:00+00:00";
  run_event = stamp "e1";
  output_row = stamp "o1";
  output_event = stamp "e2";
  updated_at = "2026-05-01T12:00:00+00:00";
  task_event = stamp "e3";
}

abbrev moment : Moment
moment = record {
  removed_at = 5;
  evicted_at = 6;
  draws = draws;
  sent_at = "2026-05-01T12:00:00+00:00";
  message_id = "m";
  fresh = "k";
}

abbrev completed : Envelope
completed = record { status = "completed"; error = ""; assistant_text = "done" }

program : Unit {0}
unfolding strip clean_optional order_by str_leb get_task get_event insert_event add_event
    update_task update_task_fields add_output list_outputs get_output insert_output
    update_task_state register remove is_recently_exited after_marker before_marker extract_envelope
    render_body tail_of reap_exited terminate_agent get send send_transaction enforce_inbox_cap
program = tt

-- Of two pairs of markers the first is read.
first_envelope :
    extract_envelope
      (λ s. some (record completed { status = s }))
      ("log " <> result_begin <> " one " <> result_end <> result_begin <> "two" <> result_end)
    ≡ some (record completed { status = "one" })
unfolding program
first_envelope = refl

abbrev world : World
world = record {
  registry = record { live = child ∷ []; graveyard = [] };
  tasks = tables;
  mailbox = record { inbox_cap = 200; messages = [] };
}

abbrev remains : Remains
remains = record { returncode = pos 0; stdout_text = result_begin <> result_end; stderr_text = "" }

abbrev pass : Result ℕ × World
pass = reap_exited (λ s. some completed) (λ i. some remains) (λ i. moment) world

-- One child has exited: its task is settled and its parent has one message.
reaped : (pass.0 ≡ ok 1) × (length pass.1.mailbox.messages ≡ 1) × (length pass.1.registry.live ≡ 0)
unfolding program
reaped = (refl, refl, refl)

-- A child of another session is not terminated.
foreign_terminate :
    length (terminate_agent "lead" "q" "c" none (λ i. none) "killed" moment world).1.registry.live
    ≡ 1
unfolding program
foreign_terminate = refl

nobody-IsTidy : IsTidy 0 nobody
nobody-IsTidy = record {
  keyed = tt;
  graves = tt;
  apart = tt;
  ordered = tt;
  past = tt;
  bounded = omega arith;
}

Reach-IsTidy_example :
    IsTidy 9 (is_recently_exited "c" 9 (remove "c" 5 6 (register child nobody).1).1).1
Reach-IsTidy_example = Reach-IsTidy nobody-IsTidy (
    Upkeep.next
      (Upkeep.next (Upkeep.next Upkeep.here (registered 2 child (omega arith)))
        (removed 5 6 "c" (omega arith) (omega arith)))
      (asked 9 "c" (omega arith)))

abbrev mourning : SubagentRegistry
mourning = record { live = []; graveyard = record { session_id = "c"; exited_at = 5 } ∷ [] }

mourning-IsTidy : IsTidy 5 mourning
mourning-IsTidy = record {
  keyed = tt;
  graves = (refl, tt);
  apart = (refl, tt);
  ordered = (tt, tt);
  past = (omega arith, tt);
  bounded = omega arith;
}

is_recently_exited_lem_example :
    (is_recently_exited "c" 3600000006 mourning).0
    ≡ any
        (λ g. has_key grave_key "c" g && leb (3600000006 - g.exited_at) graveyard_ttl)
        mourning.graveyard
is_recently_exited_lem_example = is_recently_exited_lem "c" 5 3600000006 mourning mourning-IsTidy

abbrev opening : Books
opening = record {
  world = record world { registry = nobody };
  calls = [];
  spawned = [];
  mailed = [];
  lost = [];
  raised = 0;
  turns = 0;
  reaped = 0;
}

opening-IsAccounted : IsAccounted opening
opening-IsAccounted = record {
  keyed = tt;
  balanced = λ k. refl;
  excused = omega arith;
  counted = refl;
}

abbrev setting : Setting
setting = record {
  remains = remains;
  parent_agent_name = "lead";
  context_session_id = "p";
  reason = none;
  note = "terminate signal sent";
  moment = moment;
}

-- The reaper and a termination ask for one child, and the reaper is faster.
abbrev raced : Books
raced = ask_for (terminating child) "c" 5 6 (ask_for reaping "c" 5 6 (spawn child opening))

-- The termination goes on, and owes nothing; then the reaper posts its report.
abbrev settled : Books
settled =
    proceed (λ s. some completed) [] [] (reaping (some child)) setting
      (proceed (λ s. some completed) [] (reaping (some child) ∷ []) (terminating child none) setting
        raced)

one_report :
    (length settled.world.mailbox.messages ≡ 1)
    × (settled.lost ≡ [])
    × (settled.raised ≡ 0)
    × (settled.reaped ≡ 1)
unfolding program register remove
one_report = (refl, refl, refl, refl)

Reach-IsAccounted_example : IsAccounted settled
unfolding register remove
Reach-IsAccounted_example =
    Reach-IsAccounted (λ s. some completed) opening-IsAccounted
      (Calls.next
        (Calls.next
          (Calls.next (Calls.next (Calls.next Calls.here (spawns child)) (reaps "c" 5 6))
            (terminates child 5 6))
          (resumes [] (reaping (some child) ∷ []) (terminating child none) setting refl))
        (resumes [] [] (reaping (some child)) setting refl))

settles :
    (update_task_state child (some completed) (pos 0) draws tables).0
    ≡ ok "Task tracking: task_id=t status=completed_with_artifacts."
unfolding program
settles = refl

update_task_state_lem_example :
    IsLeft "t" completed_with_artifacts
      (update_task_state child (some completed) (pos 0) draws tables).1
update_task_state_lem_example =
    update_task_state_lem child "t" (some completed) (pos 0) draws _ tables survey refl refl settles
