-- ===== src/Subagents/Untouched.antt =====
-- src/feather/core/subagents/reaper.py, `_update_task_state`: which tables its writes leave
-- alone.
use feather_os.Prelude.{
  String, ◌≡◌, refl, ◌∙◌, Option, [], ◌∷◌, ◌++◌, IsPreorder, Keeps, Keeps-pure, Keeps-raise_if,
  Keeps-require, Keeps-refuse_if, Keeps-modify, Keeps-bind, modify,
}
use feather_os.Tasks.Records.{Db, Stamp, TaskOutput, TaskEvent, TaskRun}
use feather_os.Tasks.Events.{get_task, get_event, insert_event, add_event}
use feather_os.Tasks.Runs.{Ending, finish_run, get_run, update_run_fields}
use feather_os.Tasks.Outputs.{NewOutput, add_output, get_output, insert_output}

-- The tasks are the same in both stores, and so are the outputs.
pub record SameTasks (before after : Db) : Type 0 where
  pub tasks : after.tasks ≡ before.tasks

pub record SameTables (before after : Db) : Type 0 where
  pub tasks : after.tasks ≡ before.tasks
  pub outputs : after.outputs ≡ before.outputs

pub SameTables-IsPreorder : IsPreorder SameTables
SameTables-IsPreorder = record {
  refl = λ s. record { tasks = refl; outputs = refl };
  trans = λ a b c p q. record { tasks = q.tasks ∙ p.tasks; outputs = q.outputs ∙ p.outputs };
}

append_event-SameTables :
    (e : TaskEvent)
    → Keeps SameTables (modify (λ (db : Db). record db { events = db.events ++ e ∷ [] }))
append_event-SameTables e = Keeps-modify _ (λ db. record { tasks = refl; outputs = refl })

get_event-SameTables : (event_id : String) → Keeps SameTables (get_event event_id)
unfolding get_event
get_event-SameTables event_id = record {
  at = λ db. (Keeps-require SameTables-IsPreorder _ _).at db;
}

get_run-SameTables : (run_id : String) → Keeps SameTables (get_run run_id)
unfolding get_run
get_run-SameTables run_id = record { at = λ db. (Keeps-require SameTables-IsPreorder _ _).at db }

pub add_event-SameTables :
    (task_id event_type message : String) (agent_name session_id : Option String) (stamp : Stamp)
    → Keeps SameTables (add_event task_id event_type message agent_name session_id stamp)
unfolding add_event insert_event
add_event-SameTables task_id event_type message agent_name session_id stamp = search (
  SameTables-IsPreorder, Keeps-bind, Keeps-refuse_if, append_event-SameTables, get_event-SameTables,
)

update_run_fields-SameTables :
    (run_id : String) (f : TaskRun → TaskRun) → Keeps SameTables (update_run_fields run_id f)
unfolding update_run_fields
update_run_fields-SameTables run_id f =
    Keeps-modify _ (λ db. record { tasks = refl; outputs = refl })

pub finish_run-SameTables :
    (run_id : String) (e : Ending) (now : String) (event : Stamp)
    → Keeps SameTables (finish_run run_id e now event)
unfolding finish_run
finish_run-SameTables run_id e now event = search (
  SameTables-IsPreorder, Keeps-bind, Keeps-pure, update_run_fields-SameTables, get_run-SameTables,
  add_event-SameTables,
)

pub SameTasks-IsPreorder : IsPreorder SameTasks
SameTasks-IsPreorder = record {
  refl = λ s. record { tasks = refl };
  trans = λ a b c p q. record { tasks = q.tasks ∙ p.tasks };
}

add_event-SameTasks :
    (task_id event_type message : String) (agent_name session_id : Option String) (stamp : Stamp)
    → Keeps SameTasks (add_event task_id event_type message agent_name session_id stamp)
add_event-SameTasks task_id event_type message agent_name session_id stamp = record {
  at = λ db. record {
    tasks =
        ((add_event-SameTables task_id event_type message agent_name session_id stamp).at db).tasks;
  };
}

get_task-SameTasks : (task_id : String) → Keeps SameTasks (get_task task_id)
unfolding get_task
get_task-SameTasks task_id = record { at = λ db. (Keeps-require SameTasks-IsPreorder _ _).at db }

get_output-SameTasks : (output_id : String) → Keeps SameTasks (get_output output_id)
unfolding get_output
get_output-SameTasks output_id = record {
  at = λ db. (Keeps-require SameTasks-IsPreorder _ _).at db;
}

append_output-SameTasks :
    (o : TaskOutput)
    → Keeps SameTasks (modify (λ (db : Db). record db { outputs = db.outputs ++ o ∷ [] }))
append_output-SameTasks o = Keeps-modify _ (λ db. record { tasks = refl })

insert_output-SameTasks : (o : TaskOutput) → Keeps SameTasks (insert_output o)
unfolding insert_output
insert_output-SameTasks o =
    search (SameTasks-IsPreorder, Keeps-bind, Keeps-refuse_if, append_output-SameTasks)

pub add_output-SameTasks :
    (a : NewOutput) (row event : Stamp) → Keeps SameTasks (add_output a row event)
unfolding add_output
add_output-SameTasks a row event =
    search
      (
        SameTasks-IsPreorder, Keeps-bind, Keeps-raise_if, get_task-SameTasks,
        insert_output-SameTasks, add_event-SameTasks, get_output-SameTasks,
      )
      depth 8
