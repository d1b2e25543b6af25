-- ===== src/Tasks/History.antt =====
-- Any sequence of operations on the task store, by the lead and by its sub-agents.
use feather_os.Prelude.{ℕ, String, refl, Option, none, some, if_ind, Keeps, Keeps-pure, Keeps-bind}
use feather_os.Tasks.Records.{Db, Stamp, Task, TaskStatus}
use feather_os.Tasks.Events.{add_event}
use feather_os.Tasks.Plans.{NewPlan, create_plan}
use feather_os.Tasks.Work.{
  NewTask, create_task, Change, unset, set, TaskChanges, refuse_null_status, log_status,
  update_task, changes_nothing,
}
use feather_os.Tasks.Runs.{
  Ending, create_run, end_run, attach_pid, update_run_fields, finish_run, update_run_pid,
}
use feather_os.Tasks.Outputs.{NewOutput, add_output}
use feather_os.Tasks.Growth.{
  IsGrowth, IsGrowth-refl, IsGrowth-trans, growth, growth_rules, update_task_fields-grows,
  update_run_fields-grows, get_task-grows,
}

add_event-grows :
    (task_id event_type message : String) (agent_name session_id : Option String) (stamp : Stamp)
    → Keeps IsGrowth (add_event task_id event_type message agent_name session_id stamp)
unfolding add_event
add_event-grows task_id event_type message agent_name session_id stamp = search growth_rules

create_plan-grows : (a : NewPlan) (stamp : Stamp) → Keeps IsGrowth (create_plan a stamp)
unfolding create_plan
create_plan-grows a stamp = search growth_rules depth 9

create_task-grows : (a : NewTask) (row event : Stamp) → Keeps IsGrowth (create_task a row event)
unfolding create_task
create_task-grows a row event = search (growth_rules, add_event-grows) depth 12

refuse_null_status-grows : (c : Change (Option TaskStatus)) → Keeps IsGrowth (refuse_null_status c)
refuse_null_status-grows unset = Keeps-pure growth tt
refuse_null_status-grows (set none) = record { at = IsGrowth-refl }
refuse_null_status-grows (set (some s)) = Keeps-pure growth tt

log_status-grows :
    (c : Change (Option TaskStatus)) (task_id : String) (t : Task) (event : Stamp)
    → Keeps IsGrowth (log_status c task_id t event)
log_status-grows unset task_id t event = Keeps-pure growth tt
log_status-grows (set s) task_id t event = search (growth_rules, add_event-grows)

update_task-grows :
    (task_id : String) (c : TaskChanges) (now : String) (event : Stamp)
    → Keeps IsGrowth (update_task task_id c now event)
unfolding update_task
update_task-grows task_id c now event = Keeps-bind growth _ _ (get_task-grows task_id) λ _.
    Keeps-bind growth _ _ (refuse_null_status-grows c.status) λ _.
      if_ind (Keeps IsGrowth) (changes_nothing c) _ _ (get_task-grows task_id)
        (search (growth_rules, update_task_fields-grows, log_status-grows))

create_run-grows :
    (task_id session_id agent_name : String) (pid : Option ℕ) (row event : Stamp)
    → Keeps IsGrowth (create_run task_id session_id agent_name pid row event)
unfolding create_run
create_run-grows task_id session_id agent_name pid row event =
    search (growth_rules, add_event-grows) depth 8

end_run-grows :
    (run_id : String) (e : Ending) (now : String)
    → Keeps IsGrowth (update_run_fields run_id (end_run e now))
end_run-grows run_id e now = update_run_fields-grows run_id (end_run e now) (λ r. refl)

attach_pid-grows :
    (run_id : String) (pid : Option ℕ) → Keeps IsGrowth (update_run_fields run_id (attach_pid pid))
attach_pid-grows run_id pid = update_run_fields-grows run_id (attach_pid pid) (λ r. refl)

finish_run-grows :
    (run_id : String) (e : Ending) (now : String) (event : Stamp)
    → Keeps IsGrowth (finish_run run_id e now event)
unfolding finish_run
finish_run-grows run_id e now event = search (growth_rules, add_event-grows, end_run-grows) depth 8

update_run_pid-grows :
    (run_id : String) (pid : Option ℕ) → Keeps IsGrowth (update_run_pid run_id pid)
unfolding update_run_pid
update_run_pid-grows run_id pid = search (growth_rules, attach_pid-grows)

add_output-grows : (a : NewOutput) (row event : Stamp) → Keeps IsGrowth (add_output a row event)
unfolding add_output
add_output-grows a row event = search (growth_rules, add_event-grows) depth 12

-- One call that writes, whether it returns or raises.
pub data Step (db : Db) : Db → Type 0 where
  plan_created : (a : NewPlan) (stamp : Stamp) → Step db (create_plan a stamp db).1
  task_created : (a : NewTask) (row event : Stamp) → Step db (create_task a row event db).1
  task_updated :
      (task_id : String) (c : TaskChanges) (now : String) (event : Stamp)
      → Step db (update_task task_id c now event db).1
  run_created :
      (task_id session_id agent_name : String) (pid : Option ℕ) (row event : Stamp)
      → Step db (create_run task_id session_id agent_name pid row event db).1
  run_finished :
      (run_id : String) (e : Ending) (now : String) (event : Stamp)
      → Step db (finish_run run_id e now event db).1
  pid_updated : (run_id : String) (pid : Option ℕ) → Step db (update_run_pid run_id pid db).1
  output_added : (a : NewOutput) (row event : Stamp) → Step db (add_output a row event db).1
  event_added :
      (task_id event_type message : String) (agent_name session_id : Option String) (stamp : Stamp)
      → Step db (add_event task_id event_type message agent_name session_id stamp db).1

pub data Reach (db : Db) : Db → Type 0 where
  here : Reach db db
  next : {a b : Db} → Reach db a → Step a b → Reach db b

Step-IsGrowth : {a b : Db} → Step a b → IsGrowth a b
Step-IsGrowth {a} (plan_created x stamp) = (create_plan-grows x stamp).at a
Step-IsGrowth {a} (task_created x row event) = (create_task-grows x row event).at a
Step-IsGrowth {a} (task_updated task_id c now event) = (update_task-grows task_id c now event).at a
Step-IsGrowth {a} (run_created task_id session_id agent_name pid row event) =
    (create_run-grows task_id session_id agent_name pid row event).at a
Step-IsGrowth {a} (run_finished run_id e now event) = (finish_run-grows run_id e now event).at a
Step-IsGrowth {a} (pid_updated run_id pid) = (update_run_pid-grows run_id pid).at a
Step-IsGrowth {a} (output_added x row event) = (add_output-grows x row event).at a
Step-IsGrowth {a} (event_added task_id event_type message agent_name session_id stamp) =
    (add_event-grows task_id event_type message agent_name session_id stamp).at a

-- After any operations, failed ones included, every plan, output and event stands at its place
-- unchanged; every task still has its id, plan, parent, lead session, title, description, criteria,
-- required outputs and creation time; and every run still has its id, task, session, agent and start.
pub Reach-IsGrowth : {a b : Db} → Reach a b → IsGrowth a b
Reach-IsGrowth {a} here = IsGrowth-refl a
Reach-IsGrowth {a} (next {a = b} {b = c} r st) =
    IsGrowth-trans a b c (Reach-IsGrowth r) (Step-IsGrowth st)
