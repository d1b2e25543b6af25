-- ===== src/Tasks/Updates/Fields.antt =====
-- `update_task` of src/feather/storage/task_store.py: what a change does to each field.
use feather_os.Prelude.{
  subst, arith, str_eq_iff, fetch-update, fetch-key, String, ◌<>◌, ◌≡◌, ◌≢◌, refl, ◌∙◌, true, false,
  Bool-cases, Option-cases, ◌⊎◌, inl, inr, Option, none, some, List, [], ◌∷◌, ◌++◌, strip, is_empty,
  clean_optional, any, has_key, fetch, Result, ok, err, value_error, if◌then◌else◌, &&-eq_true,
}
use feather_os.Tasks.Records.{
  Db, Stamp, Task, TaskStatus, queued, blocked_needs_input, completed_with_report,
  completed_with_artifacts, completed_without_artifacts, stopped, TaskEvent, task_key, event_key,
  status_value,
}
use feather_os.Tasks.Events.{or_else}
use feather_os.Tasks.Work.{
  Change, unset, set, is_unset, TaskChanges, changed, changed_status, apply_changes,
  changes_nothing, update_task,
}
use feather_os.Tasks.Updates.{
  status_events, refetch, update_task_unknown, update_task_null, update_task_nothing,
  update_task-known,
}

-- An optional text once a change was written: a text that strips to nothing is stored as NULL.
abbrev pub written : Change (Option String) → Option String → Option String
written unset old = old
written (set none) old = none
written (set (some s)) old = if is_empty (strip s) then none else some (strip s)

abbrev pub status_after : Change (Option TaskStatus) → TaskStatus → TaskStatus
status_after (set (some s)) old = s
status_after (set none) old = old
status_after unset old = old

-- The row of a task once the changes were written at `now`.
pub record IsChanged (c : TaskChanges) (now : String) (old new : Task) : Type 0 where
  pub status : new.status ≡ status_after c.status old.status
  pub agent :
      new.responsible_agent_name ≡ written c.responsible_agent_name old.responsible_agent_name
  pub session :
      new.responsible_session_id ≡ written c.responsible_session_id old.responsible_session_id
  pub question : new.blocked_question ≡ written c.blocked_question old.blocked_question
  pub correlation :
      new.blocked_correlation_id ≡ written c.blocked_correlation_id old.blocked_correlation_id
  pub error : new.error ≡ written c.error old.error
  pub touched : new.updated_at ≡ now
  pub id : new.id ≡ old.id
  pub plan : new.plan_id ≡ old.plan_id
  pub parent : new.parent_task_id ≡ old.parent_task_id
  pub lead : new.lead_session_id ≡ old.lead_session_id
  pub title : new.title ≡ old.title
  pub description : new.description ≡ old.description
  pub criteria : new.success_criteria ≡ old.success_criteria
  pub outputs : new.required_outputs ≡ old.required_outputs
  pub created : new.created_at ≡ old.created_at

-- The event that reports the status of a task.
pub record IsStatusEvent (t : Task) (stamp : Stamp) (e : TaskEvent) : Type 0 where
  pub id : e.id ≡ stamp.id
  pub task : e.task_id ≡ t.id
  pub event_type : e.event_type ≡ "status"
  pub message : e.message ≡ "Task status -> " <> status_value t.status
  pub agent : e.agent_name ≡ written (set t.responsible_agent_name) none
  pub session : e.session_id ≡ written (set t.responsible_session_id) none
  pub created : e.created_at ≡ stamp.now

-- What a change of the status logs.
pub data Logged (t : Task) (stamp : Stamp)
    : Change (Option TaskStatus) → List TaskEvent → Type 0 where
  kept : Logged t stamp unset []
  logged :
      (s : Option TaskStatus) (e : TaskEvent)
      → IsStatusEvent t stamp e
      → Logged t stamp (set s) (e ∷ [])

abbrev pub no_changes : TaskChanges
no_changes = record {
  status = unset;
  responsible_agent_name = unset;
  responsible_session_id = unset;
  blocked_question = unset;
  blocked_correlation_id = unset;
  error = unset;
}

-- What a call of `update_task` comes to.
pub data Verdict (task_id : String) (c : TaskChanges) (now : String) (event : Stamp) (db : Db)
    : Result Task × Db → Type 0 where
  unknown :
      fetch task_key task_id db.tasks ≡ none
      → Verdict task_id c now event db (err (value_error ("Unknown task: " <> task_id)), db)
  null_status :
      (t : Task)
      → fetch task_key task_id db.tasks ≡ some t
      → c.status ≡ set none
      → Verdict task_id c now event db (err (value_error "Task `status` must not be null."), db)
  nothing :
      (t : Task)
      → fetch task_key task_id db.tasks ≡ some t
      → c ≡ no_changes
      → Verdict task_id c now event db (ok t, db)
  changed_task :
      (t new : Task) (tasks : List Task) (events : List TaskEvent)
      → fetch task_key task_id db.tasks ≡ some t
      → c.status ≢ set none
      → IsChanged c now t new
      → fetch task_key task_id tasks ≡ some new
      → ((j : String) → j ≢ task_id → fetch task_key j tasks ≡ fetch task_key j db.tasks)
      → Logged new event c.status events
      → Verdict task_id c now event db
          (ok new, record db { tasks = tasks; events = db.events ++ events })

changed-written : (c : Change (Option String)) (old : Option String) → changed c old ≡ written c old
unfolding clean_optional
changed-written unset old = refl
changed-written (set none) old = refl
changed-written (set (some s)) old = refl

pub cleaned : (o : Option String) → clean_optional o ≡ written (set o) none
unfolding clean_optional
cleaned none = refl
cleaned (some s) = refl

changed_status-after :
    (c : Change (Option TaskStatus)) (old : TaskStatus) → changed_status c old ≡ status_after c old
changed_status-after unset old = refl
changed_status-after (set none) old = refl
changed_status-after (set (some s)) old = refl

apply_changes-IsChanged :
    (c : TaskChanges) (now : String) (t : Task) → IsChanged c now t (apply_changes c now t)
apply_changes-IsChanged c now t = record {
  status = changed_status-after c.status t.status;
  agent = changed-written c.responsible_agent_name t.responsible_agent_name;
  session = changed-written c.responsible_session_id t.responsible_session_id;
  question = changed-written c.blocked_question t.blocked_question;
  correlation = changed-written c.blocked_correlation_id t.blocked_correlation_id;
  error = changed-written c.error t.error;
  touched = refl;
  id = refl;
  plan = refl;
  parent = refl;
  lead = refl;
  title = refl;
  description = refl;
  criteria = refl;
  outputs = refl;
  created = refl;
}

status_message :
    (v : TaskStatus)
    → or_else (strip ("Task status -> " <> status_value v)) "(empty)"
      ≡ "Task status -> " <> status_value v
unfolding strip
status_message queued = refl
status_message TaskStatus.running = refl
status_message blocked_needs_input = refl
status_message completed_with_report = refl
status_message completed_with_artifacts = refl
status_message completed_without_artifacts = refl
status_message TaskStatus.failed = refl
status_message stopped = refl

status_events-Logged :
    (s : Change (Option TaskStatus)) (t : Task) (event : Stamp)
    → Logged t event s (status_events s t.id t event)
unfolding clean_optional
status_events-Logged unset t event = kept
status_events-Logged (set s) t event = logged s _ (record {
  id = refl;
  task = refl;
  event_type = unfold strip in refl;
  message = status_message t.status;
  agent = cleaned t.responsible_agent_name;
  session = cleaned t.responsible_session_id;
  created = refl;
})

is_unset-unset : {A : Type 0} → (x : Change A) → is_unset x ≡ true → x ≡ unset
is_unset-unset unset h = refl
is_unset-unset (set a) h = cc

is_given : {A : Type 0} → (x : Change (Option A)) → (x ≡ set none) ⊎ (x ≢ set none)
is_given unset = inr (λ e. cc)
is_given (set none) = inl refl
is_given (set (some a)) = inr (λ e. cc)

changes_nothing-unset : (c : TaskChanges) → changes_nothing c ≡ true → c ≡ no_changes
changes_nothing-unset c h =
    let (a, r) = &&-eq_true _ _ h in
    let (b, r2) = &&-eq_true _ _ r in
    let (d, r3) = &&-eq_true _ _ r2 in
    let (e, r4) = &&-eq_true _ _ r3 in
    let (f, g) = &&-eq_true _ _ r4 in
    λ i. record {
      status = is_unset-unset c.status a i;
      responsible_agent_name = is_unset-unset c.responsible_agent_name b i;
      responsible_session_id = is_unset-unset c.responsible_session_id d i;
      blocked_question = is_unset-unset c.blocked_question e i;
      blocked_correlation_id = is_unset-unset c.blocked_correlation_id f i;
      error = is_unset-unset c.error g i;
    }

module _ (task_id : String) (c : TaskChanges) (now : String) (event : Stamp) (db : Db) where
  -- What `update_task` does under a fresh event id. An unknown task and a null status are refused,
  -- and nothing is written; without a given field the task is returned as it is. Otherwise a field
  -- that is given is written (a text stripped, and NULL if nothing is left), a field that is not
  -- given keeps its value, `updated_at` becomes the time, the task is returned and found as so
  -- changed, no other task differs, and exactly a given status is logged on the task's timeline.
  pub update_task_lem :
      any (has_key event_key event.id) db.events ≡ false
      → Verdict task_id c now event db (update_task task_id c now event db)
  update_task_lem free = elim (Option-cases (fetch task_key task_id db.tasks)) [
    | inl missing ↦ rw (update_task_unknown task_id c now event db missing) (unknown missing)
    | inr (t, found) ↦ elim (is_given c.status) [
      | inl null ↦
          rw (update_task_null task_id c now event db t found null) (null_status t found null)
      | inr proper ↦ elim (Bool-cases (changes_nothing c)) [
        | inl none_given ↦
            rw (update_task_nothing task_id c now event db t found proper none_given)
              (nothing t found (changes_nothing-unset c none_given))
        | inr some_given ↦
            rw (update_task-known task_id c now event db t found proper some_given free) (
              changed_task t (apply_changes c now t) _ _ found proper
                (apply_changes-IsChanged c now t) (refetch task_id c now event db t found)
                (λ j other.
                  fetch-update task_key task_id j (apply_changes c now) db.tasks (λ x. refl)
                  ∙ ground (arith, str_eq_iff task_id j))
                (subst
                  (λ i.
                    Logged (apply_changes c now t) event c.status
                      (status_events c.status i (apply_changes c now t) event))
                  (fetch-key task_key task_id t db.tasks found)
                  (status_events-Logged c.status (apply_changes c now t) event)))
      ]
    ]
  ]
