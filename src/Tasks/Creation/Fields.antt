-- ===== src/Tasks/Creation/Fields.antt =====
-- `create_task` of src/feather/storage/task_store.py: what it refuses, and each field of what it stores.
use feather_os.Prelude.{
  subst, sym, String, ◌<>◌, ◌≡◌, refl, true, false, Bool-cases, Option-cases, inl, inr, ◌⊎◌, Option,
  none, some, List, [], ◌∷◌, ◌++◌, strip, is_empty, any, has_key, fetch, fetch-any, Result, ok, err,
  value_error,
}
use feather_os.Tasks.Records.{Db, Stamp, Task, TaskEvent, task_key, event_key, plan_key}
use feather_os.Tasks.Events.{get_task, or_else, new_event}
use feather_os.Tasks.Plans.{get_plan}
use feather_os.Tasks.Work.{NewTask, list_or_empty, set, new_task, create_task, refers}
use feather_os.Tasks.Updates.Fields.{written, cleaned}
use feather_os.Tasks.Creation.{IsCreatable, found, given_plan, create_task-creatable}

-- The row of a new task.
pub record IsCreated (a : NewTask) (row : Stamp) (t : Task) : Type 0 where
  pub id : t.id ≡ row.id
  pub plan : t.plan_id ≡ a.plan_id
  pub parent : t.parent_task_id ≡ a.parent_task_id
  pub title : t.title ≡ strip a.title
  pub description : t.description ≡ strip a.description
  pub criteria : t.success_criteria ≡ strip a.success_criteria
  pub outputs : t.required_outputs ≡ elim a.required_outputs [ none ↦ [] | some l ↦ l ]
  pub status : t.status ≡ a.status
  pub agent : t.responsible_agent_name ≡ written (set a.responsible_agent_name) none
  pub session : t.responsible_session_id ≡ written (set a.responsible_session_id) none
  pub lead : t.lead_session_id ≡ a.lead_session_id
  pub question : t.blocked_question ≡ none
  pub correlation : t.blocked_correlation_id ≡ none
  pub error : t.error ≡ none
  pub created : t.created_at ≡ row.now
  pub updated : t.updated_at ≡ row.now

-- The event of a new task.
pub record IsCreationEvent (a : NewTask) (row event : Stamp) (e : TaskEvent) : Type 0 where
  pub id : e.id ≡ event.id
  pub task : e.task_id ≡ row.id
  pub event_type : e.event_type ≡ "created"
  pub message : e.message ≡ or_else (strip ("Task created: " <> strip a.title)) "(empty)"
  pub agent : e.agent_name ≡ written (set a.responsible_agent_name) none
  pub session : e.session_id ≡ written (set a.responsible_session_id) none
  pub created : e.created_at ≡ event.now

-- What a call of `create_task` comes to.
pub data Verdict (a : NewTask) (row event : Stamp) (db : Db) : Result Task × Db → Type 0 where
  untitled :
      is_empty (strip a.title) ≡ true
      → Verdict a row event db (err (value_error "Task `title` must not be empty."), db)
  unled :
      is_empty a.lead_session_id ≡ true
      → Verdict a row event db (err (value_error "Task `lead_session_id` must not be empty."), db)
  unknown_plan :
      (k : String)
      → a.plan_id ≡ some k
      → fetch plan_key k db.plans ≡ none
      → Verdict a row event db (err (value_error ("Unknown plan: " <> k)), db)
  unknown_parent :
      (k : String)
      → a.parent_task_id ≡ some k
      → fetch task_key k db.tasks ≡ none
      → Verdict a row event db (err (value_error ("Unknown task: " <> k)), db)
  created_task :
      (t : Task) (e : TaskEvent)
      → IsCreatable a db
      → IsCreated a row t
      → fetch task_key row.id (db.tasks ++ t ∷ []) ≡ some t
      → IsCreationEvent a row event e
      → Verdict a row event db
          (ok t, record db { tasks = db.tasks ++ t ∷ []; events = db.events ++ e ∷ [] })

-- A reference is known, or it is given and leads nowhere.
refers-cases :
    {A : Type 0}
    → (key : A → String) (o : Option String) (rows : List A)
    → (refers key o rows ≡ true) ⊎ ((k : String) × (o ≡ some k) × (fetch key k rows ≡ none))
refers-cases key none rows = inl refl
refers-cases key (some k) rows = elim (Option-cases (fetch key k rows)) [
  | inl missing ↦ inr (k, refl, missing)
  | inr (x, there) ↦ inl (fetch-any key k x rows there)
]

new_task-IsCreated : (a : NewTask) (row : Stamp) → IsCreated a row (new_task a row)
new_task-IsCreated a row = record {
  id = refl;
  plan = refl;
  parent = refl;
  title = refl;
  description = refl;
  criteria = refl;
  outputs = outputs a.required_outputs;
  status = refl;
  agent = cleaned a.responsible_agent_name;
  session = cleaned a.responsible_session_id;
  lead = refl;
  question = refl;
  correlation = refl;
  error = refl;
  created = refl;
  updated = refl;
}
  where
    outputs : (o : Option (List String)) → list_or_empty o ≡ elim o [ none ↦ [] | some l ↦ l ]
    outputs none = refl
    outputs (some l) = refl

module _ (a : NewTask) (row event : Stamp) (db : Db) where
  created_event : IsCreationEvent a row event (
      new_event row.id "created"
        ("Task created: " <> strip a.title)
        a.responsible_agent_name
        a.responsible_session_id
        event)
  created_event = record {
    id = refl;
    task = refl;
    event_type = unfold strip in refl;
    message = refl;
    agent = cleaned a.responsible_agent_name;
    session = cleaned a.responsible_session_id;
    created = refl;
  }

  -- What `create_task` does under fresh ids. Without a title or a lead session, and with a plan or
  -- a parent that is unknown, it is refused, and nothing is written. Otherwise it appends a task
  -- with the texts stripped, an empty name as NULL, the given status, plan and parent, no block and
  -- no error, and the time as both times; it appends one `created` event; and it returns the task
  -- as its id is then found.
  pub create_task_lem :
      any (has_key task_key row.id) db.tasks ≡ false
      → any (has_key event_key event.id) db.events ≡ false
      → Verdict a row event db (create_task a row event db)
  unfolding create_task get_task get_plan
  create_task_lem free free_event = elim (Bool-cases (is_empty (strip a.title))) [
    | inl t ↦ rw t (untitled t)
    | inr t ↦ elim (Bool-cases (is_empty a.lead_session_id)) [
      | inl l ↦ rw t (rw l (unled l))
      | inr l ↦ elim (refers-cases plan_key a.plan_id db.plans) [
        | inr (k, given, missing) ↦
            let refusal : create_task a row event db
                ≡ (err (value_error ("Unknown plan: " <> k)), db) =
              rw t (rw l (rw given (rw missing))) in
            subst (Verdict a row event db) (sym refusal) (unknown_plan k given missing)
        | inl p ↦ elim (refers-cases task_key a.parent_task_id db.tasks) [
          | inr (k, given, missing) ↦
              let refusal : create_task a row event db
                  ≡ (err (value_error ("Unknown task: " <> k)), db) =
                rw t (rw l (rw (given_plan a.plan_id db p) (rw given (rw missing)))) in
              subst (Verdict a row event db) (sym refusal) (unknown_parent k given missing)
          | inl q ↦
              let v : IsCreatable a db = record {
                titled = t;
                led = l;
                planned = p;
                parented = q;
              } in
              subst (Verdict a row event db)
                (sym (create_task-creatable a row event db v free free_event))
                (created_task (new_task a row) _ v (new_task-IsCreated a row)
                  (found a row event db free) created_event)
        ]
      ]
    ]
  ]
