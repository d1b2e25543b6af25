-- ===== src/Tasks/Growth.antt =====
-- The task store only grows: no operation removes a row, and each leaves alone what its table does
-- not let it change.
use feather_os.Prelude.{
  ℕ, String, ◌≡◌, refl, sym, ap, ◌∙◌, Bool, true, false, Option, none, some, List, [], ◌∷◌, ◌++◌,
  arith, if◌then◌else◌, if_ind, Result, Bool-cases, inl, inr, update, any, has_key, Extends,
  Extends-refl, Extends-trans, Extends-append, Extends-update, Exec, pure, raise, IsPreorder, Keeps,
  Keeps-pure, Keeps-raise_if, Keeps-require, Keeps-refuse_if, Keeps-modify, modify, refuse_if,
  Keeps-bind, Keeps-if_given,
}
use feather_os.Tasks.Records.{
  Db, Plan, Task, TaskRun, TaskOutput, TaskEvent, queued, RunStatus, task_key, run_key,
}
use feather_os.Tasks.Events.{get_task, get_event, insert_event}
use feather_os.Tasks.Plans.{get_plan, insert_plan}
use feather_os.Tasks.Work.{insert_task, TaskChanges, apply_changes, update_task_fields}
use feather_os.Tasks.Runs.{get_run, insert_run, update_run_fields}
use feather_os.Tasks.Outputs.{get_output, insert_output}

-- What a task keeps: all but its status, its assignment, its question, its error and the time of
-- the last change.
abbrev pub brief : Task → Task
brief t = record t {
  status = queued;
  responsible_agent_name = none;
  responsible_session_id = none;
  blocked_question = none;
  blocked_correlation_id = none;
  error = none;
  updated_at = "";
}

-- What a run keeps: its task, its session, its agent and its start.
abbrev pub launch : TaskRun → TaskRun
launch r = record r {
  pid = none;
  status = RunStatus.running;
  exit_code = none;
  envelope_status = none;
  error = none;
  ended_at = none;
}

abbrev pub SameTask : Task → Task → Type 0
SameTask t t' = brief t ≡ brief t'

abbrev pub SameRun : TaskRun → TaskRun → Type 0
SameRun r r' = launch r ≡ launch r'

pub record IsGrowth (a b : Db) : Type 0 where
  pub plans : Extends ◌≡◌ a.plans b.plans
  pub tasks : Extends SameTask a.tasks b.tasks
  pub runs : Extends SameRun a.runs b.runs
  pub outputs : Extends ◌≡◌ a.outputs b.outputs
  pub events : Extends ◌≡◌ a.events b.events

pub IsGrowth-refl : (a : Db) → IsGrowth a a
IsGrowth-refl a = record {
  plans = Extends-refl ◌≡◌ (λ x. refl) a.plans;
  tasks = Extends-refl SameTask (λ x. refl) a.tasks;
  runs = Extends-refl SameRun (λ x. refl) a.runs;
  outputs = Extends-refl ◌≡◌ (λ x. refl) a.outputs;
  events = Extends-refl ◌≡◌ (λ x. refl) a.events;
}

pub IsGrowth-trans : (a b c : Db) → IsGrowth a b → IsGrowth b c → IsGrowth a c
IsGrowth-trans a b c p q = record {
  plans = Extends-trans ◌≡◌ (λ x y z e f. e ∙ f) a.plans b.plans c.plans p.plans q.plans;
  tasks = Extends-trans SameTask (λ x y z e f. e ∙ f) a.tasks b.tasks c.tasks p.tasks q.tasks;
  runs = Extends-trans SameRun (λ x y z e f. e ∙ f) a.runs b.runs c.runs p.runs q.runs;
  outputs =
      Extends-trans ◌≡◌ (λ x y z e f. e ∙ f) a.outputs b.outputs c.outputs p.outputs q.outputs;
  events = Extends-trans ◌≡◌ (λ x y z e f. e ∙ f) a.events b.events c.events p.events q.events;
}

pub growth : IsPreorder IsGrowth
growth = record { refl = IsGrowth-refl; trans = IsGrowth-trans }

-- A store that differs in one table, which grew.
module _ (db : Db) where
  plans_grow :
      (rows : List Plan) → Extends ◌≡◌ db.plans rows → IsGrowth db (record db { plans = rows })
  plans_grow rows h =
      let r = IsGrowth-refl db in
      record { plans = h; tasks = r.tasks; runs = r.runs; outputs = r.outputs; events = r.events }

  tasks_grow :
      (rows : List Task) → Extends SameTask db.tasks rows → IsGrowth db (record db { tasks = rows })
  tasks_grow rows h =
      let r = IsGrowth-refl db in
      record { plans = r.plans; tasks = h; runs = r.runs; outputs = r.outputs; events = r.events }

  runs_grow :
      (rows : List TaskRun) → Extends SameRun db.runs rows → IsGrowth db (record db { runs = rows })
  runs_grow rows h =
      let r = IsGrowth-refl db in
      record { plans = r.plans; tasks = r.tasks; runs = h; outputs = r.outputs; events = r.events }

  outputs_grow :
      (rows : List TaskOutput)
      → Extends ◌≡◌ db.outputs rows
      → IsGrowth db (record db { outputs = rows })
  outputs_grow rows h =
      let r = IsGrowth-refl db in
      record { plans = r.plans; tasks = r.tasks; runs = r.runs; outputs = h; events = r.events }

  events_grow :
      (rows : List TaskEvent)
      → Extends ◌≡◌ db.events rows
      → IsGrowth db (record db { events = rows })
  events_grow rows h =
      let r = IsGrowth-refl db in
      record { plans = r.plans; tasks = r.tasks; runs = r.runs; outputs = r.outputs; events = h }

pub ruleset base_rules =
    (growth, Keeps-pure, Keeps-raise_if, Keeps-refuse_if, Keeps-bind, Keeps-if_given)

pub append_plan-grows :
    (p : Plan) → Keeps IsGrowth (modify (λ (db : Db). record db { plans = db.plans ++ p ∷ [] }))
append_plan-grows p =
    Keeps-modify _ λ db. plans_grow db _ (Extends-append ◌≡◌ (λ x. refl) db.plans (p ∷ []))

pub insert_plan-grows : (p : Plan) → Keeps IsGrowth (insert_plan p)
unfolding insert_plan
insert_plan-grows p = search (base_rules, append_plan-grows)

pub append_task-grows :
    (t : Task) → Keeps IsGrowth (modify (λ (db : Db). record db { tasks = db.tasks ++ t ∷ [] }))
append_task-grows t =
    Keeps-modify _ λ db. tasks_grow db _ (Extends-append SameTask (λ x. refl) db.tasks (t ∷ []))

pub insert_task-grows : (t : Task) → Keeps IsGrowth (insert_task t)
unfolding insert_task
insert_task-grows t = search (base_rules, append_task-grows)

pub append_run-grows :
    (r : TaskRun) → Keeps IsGrowth (modify (λ (db : Db). record db { runs = db.runs ++ r ∷ [] }))
append_run-grows r =
    Keeps-modify _ λ db. runs_grow db _ (Extends-append SameRun (λ x. refl) db.runs (r ∷ []))

pub insert_run-grows : (r : TaskRun) → Keeps IsGrowth (insert_run r)
unfolding insert_run
insert_run-grows r = search (base_rules, append_run-grows)

pub append_output-grows :
    (o : TaskOutput)
    → Keeps IsGrowth (modify (λ (db : Db). record db { outputs = db.outputs ++ o ∷ [] }))
append_output-grows o =
    Keeps-modify _ λ db. outputs_grow db _ (Extends-append ◌≡◌ (λ x. refl) db.outputs (o ∷ []))

pub insert_output-grows : (o : TaskOutput) → Keeps IsGrowth (insert_output o)
unfolding insert_output
insert_output-grows o = search (base_rules, append_output-grows)

pub append_event-grows :
    (e : TaskEvent)
    → Keeps IsGrowth (modify (λ (db : Db). record db { events = db.events ++ e ∷ [] }))
append_event-grows e =
    Keeps-modify _ λ db. events_grow db _ (Extends-append ◌≡◌ (λ x. refl) db.events (e ∷ []))

pub insert_event-grows : (e : TaskEvent) → Keeps IsGrowth (insert_event e)
unfolding insert_event
insert_event-grows e = search (base_rules, append_event-grows)

pub update_task_fields-grows :
    (task_id : String) (c : TaskChanges) (now : String)
    → Keeps IsGrowth (update_task_fields task_id c now)
unfolding update_task_fields
update_task_fields-grows task_id c now = Keeps-modify _ λ db. tasks_grow db _ (
    Extends-update SameTask (λ x. refl) (has_key task_key task_id) (apply_changes c now) db.tasks
      (λ x i h. refl))

pub update_run_fields-grows :
    (run_id : String) (f : TaskRun → TaskRun)
    → ((r : TaskRun) → SameRun r (f r))
    → Keeps IsGrowth (update_run_fields run_id f)
unfolding update_run_fields
update_run_fields-grows run_id f same = Keeps-modify _ λ db.
    runs_grow db _
      (Extends-update SameRun (λ x. refl) (has_key run_key run_id) f db.runs (λ x i h. same x))

pub get_task-grows : (id : String) → Keeps IsGrowth (get_task id)
unfolding get_task
get_task-grows id = record { at = λ db. (Keeps-require growth _ _).at db }

pub get_event-grows : (id : String) → Keeps IsGrowth (get_event id)
unfolding get_event
get_event-grows id = record { at = λ db. (Keeps-require growth _ _).at db }

pub get_plan-grows : (id : String) → Keeps IsGrowth (get_plan id)
unfolding get_plan
get_plan-grows id = record { at = λ db. (Keeps-require growth _ _).at db }

pub get_run-grows : (id : String) → Keeps IsGrowth (get_run id)
unfolding get_run
get_run-grows id = record { at = λ db. (Keeps-require growth _ _).at db }

pub get_output-grows : (id : String) → Keeps IsGrowth (get_output id)
unfolding get_output
get_output-grows id = record { at = λ db. (Keeps-require growth _ _).at db }

pub ruleset growth_rules = (
  base_rules, insert_plan-grows, insert_task-grows, insert_run-grows, insert_output-grows,
  insert_event-grows, get_task-grows, get_event-grows, get_plan-grows, get_run-grows,
  get_output-grows,
)
