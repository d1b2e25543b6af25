-- ===== src/Tasks/Examples.antt =====
-- A small task store, and the theorems at it.
use feather_os.Prelude.{
  String, ◌≡◌, refl, none, some, [], ◌∷◌, map, strip, clean_optional, order_by, str_leb, pos,
}
use feather_os.Tasks.Records.{
  Db, Stamp, Task, TaskEvent, TaskRun, RunStatus, queued, exited, stopped,
}
use feather_os.Tasks.Events.{get_task, get_event, insert_event, add_event, list_events}
use feather_os.Tasks.Plans.{get_plan}
use feather_os.Tasks.Work.{
  NewTask, insert_task, create_task, unset, set, TaskChanges, apply_changes, update_task,
  update_task_fields, TaskFilter, list_tasks, find_task_by_session,
}
use feather_os.Tasks.Runs.{Ending, finish_run, update_run_fields, get_run}
use feather_os.Tasks.Growth.{IsGrowth}
use feather_os.Tasks.History.{here, next, task_updated, run_finished, Reach-IsGrowth}
use feather_os.Tasks.Updates.Fields as Changing
use feather_os.Tasks.Updates.Fields.{update_task_lem}
use feather_os.Tasks.Creation.Fields as Creating
use feather_os.Tasks.Creation.Fields.{create_task_lem}

abbrev survey : Task
survey = record {
  id = "t1";
  plan_id = none;
  parent_task_id = none;
  title = "survey";
  description = "";
  success_criteria = "";
  required_outputs = [];
  status = queued;
  responsible_agent_name = some "explore";
  responsible_session_id = some "s1";
  lead_session_id = "s0";
  blocked_question = none;
  blocked_correlation_id = none;
  error = none;
  created_at = "2026-05-01T10:00:00+00:00";
  updated_at = "2026-05-01T10:00:00+00:00";
}

abbrev first_run : TaskRun
first_run = record {
  id = "r1";
  task_id = "t1";
  session_id = "s1";
  agent_name = "explore";
  pid = some 4711;
  status = RunStatus.running;
  exit_code = none;
  envelope_status = none;
  error = none;
  started_at = "2026-05-01T10:00:01+00:00";
  ended_at = none;
}

abbrev small : Db
small = record { plans = []; tasks = survey ∷ []; runs = first_run ∷ []; outputs = []; events = [] }

abbrev stop : TaskChanges
stop = record {
  status = set (some stopped);
  responsible_agent_name = unset;
  responsible_session_id = unset;
  blocked_question = set none;
  blocked_correlation_id = unset;
  error = set (some "  cancelled  ");
}

abbrev noon : String
noon = "2026-05-01T12:00:00+00:00"

abbrev stamp : String → Stamp
stamp id = record { id = id; now = noon }

abbrev review : NewTask
review = record {
  lead_session_id = "s0";
  title = " review ";
  description = "";
  success_criteria = "";
  required_outputs = none;
  plan_id = none;
  parent_task_id = some "t1";
  responsible_agent_name = none;
  responsible_session_id = none;
  status = queued;
}

abbrev clean_exit : Ending
clean_exit = record {
  status = exited;
  exit_code = some (pos 0);
  envelope_status = some "completed";
  error = none;
}

program : Unit {0}
unfolding strip clean_optional order_by str_leb get_task get_event insert_event add_event get_plan
    insert_task create_task update_task update_task_fields finish_run update_run_fields get_run
    list_tasks list_events find_task_by_session
program = tt

stop_clears_error : (apply_changes stop noon survey).error ≡ some "cancelled"
unfolding program
stop_clears_error = refl

stopped_event :
    map (λ (e : TaskEvent). e.message) (update_task "t1" stop noon (stamp "e1") small).1.events
    ≡ "Task status -> stopped" ∷ []
unfolding program
stopped_event = refl

Reach-IsGrowth_example :
    IsGrowth small
      (finish_run "r1" clean_exit noon
        (stamp "e2")
        (update_task "t1" stop noon (stamp "e1") small).1).1
Reach-IsGrowth_example = Reach-IsGrowth (
    next (next here (task_updated "t1" stop noon (stamp "e1")))
      (run_finished "r1" clean_exit noon (stamp "e2")))

update_task_lem_example :
    Changing.Verdict "t1" stop noon
      (stamp "e1")
      small
      (update_task "t1" stop noon (stamp "e1") small)
update_task_lem_example = update_task_lem "t1" stop noon (stamp "e1") small refl

create_task_lem_example :
    Creating.Verdict review
      (stamp "t2")
      (stamp "e1")
      small
      (create_task review (stamp "t2") (stamp "e1") small)
create_task_lem_example = create_task_lem review (stamp "t2") (stamp "e1") small refl refl

abbrev no_filter : TaskFilter
no_filter = record {
  lead_session_id = some "s0";
  plan_id = none;
  status = none;
  responsible_session_id = none;
}

abbrev after_stop : Db
after_stop = (update_task "t1" stop noon (stamp "e1") small).1

finds_survey : find_task_by_session "s1" small ≡ some survey
unfolding program
finds_survey = refl
