-- ===== src/Tasks/Updates.antt =====
-- What `create_task`, `update_task` and `finish_run` do to the store, on each path.
pub mod Fields
use feather_os.Prelude.{
  if_ind, modify, IsPreorder, Keeps, Keeps-pure, Keeps-bind, Keeps-require, Keeps-refuse_if,
  Keeps-modify, String, ◌<>◌, ◌≡◌, ◌≢◌, refl, ◌∙◌, true, false, Option, none, some, List, [], ◌∷◌,
  ◌++◌, arith, str_eq_refl, str_eq_iff, update, any, has_key, fetch, fetch-snoc, fetch-any,
  fetch-update, any-update, ok, err, value_error,
}
use mathlib.Core.List.{append-nil}
use feather_os.Tasks.Records.{
  Db, Stamp, Task, TaskStatus, TaskEvent, task_key, event_key, status_value,
}
use feather_os.Tasks.Events.{get_task, get_event, insert_event, add_event, new_event, task_exists}
use feather_os.Tasks.Work.{
  Change, unset, set, TaskChanges, apply_changes, changes_nothing, update_task_fields,
  refuse_null_status, log_status, update_task,
}

-- With a free id and a known task, an event is appended to the timeline.
pub add_event_lem :
    (task_id event_type message : String) (agent_name session_id : Option String) (stamp : Stamp)
    (db : Db)
    → any (has_key event_key stamp.id) db.events ≡ false
    → task_exists task_id db ≡ true
    → add_event task_id event_type message agent_name session_id stamp db ≡ (
      ok (new_event task_id event_type message agent_name session_id stamp),
      record db {
        events = db.events ++ new_event task_id event_type message agent_name session_id stamp ∷ [];
      },
    )
unfolding add_event insert_event get_event
add_event_lem task_id event_type message agent_name session_id stamp db free known =
    let e = new_event task_id event_type message agent_name session_id stamp in
    rw free
      (rw known (rw (fetch-snoc event_key stamp.id e db.events free) (rw (str_eq_refl stamp.id))))

-- The events that `update_task` adds: one for a written status, with the values after the change.
abbrev pub status_events : Change (Option TaskStatus) → String → Task → Stamp → List TaskEvent
status_events unset task_id t event = []
status_events (set _) task_id t event =
    new_event task_id "status" ("Task status -> " <> status_value t.status) t.responsible_agent_name
      t.responsible_session_id event
    ∷ []

module _ (task_id : String) (c : TaskChanges) (now : String) (event : Stamp) (db : Db) where
  pub update_task_unknown :
      fetch task_key task_id db.tasks ≡ none
      → update_task task_id c now event db ≡ (err (value_error ("Unknown task: " <> task_id)), db)
  unfolding update_task get_task
  update_task_unknown missing = rw missing

  abbrev pub touched : Db
  touched = record db { tasks = update (has_key task_key task_id) (apply_changes c now) db.tasks }

  log_status_lem :
      (s : Change (Option TaskStatus)) (t : Task)
      → any (has_key event_key event.id) db.events ≡ false
      → task_exists task_id db ≡ true
      → log_status s task_id t event touched
        ≡ (ok tt, record touched { events = db.events ++ status_events s task_id t event })
  log_status_lem unset t free known = rw (append-nil db.events)
  log_status_lem (set s) t free known = rw (
      add_event_lem task_id "status" ("Task status -> " <> status_value t.status)
        t.responsible_agent_name t.responsible_session_id event touched free
        (any-update task_key (has_key task_key task_id) (apply_changes c now) (λ x. refl) task_id
            db.tasks
          ∙ known))

  refuse_null_status_lem :
      (s : Change (Option TaskStatus)) → s ≢ set none → refuse_null_status s db ≡ (ok tt, db)
  refuse_null_status_lem unset n = refl
  refuse_null_status_lem (set none) n = absurd (n refl)
  refuse_null_status_lem (set (some s)) n = refl

  pub update_task_null :
      (t : Task)
      → fetch task_key task_id db.tasks ≡ some t
      → c.status ≡ set none
      → update_task task_id c now event db
        ≡ (err (value_error "Task `status` must not be null."), db)
  unfolding update_task get_task
  update_task_null t found null = rw found (rw null)

  pub update_task_nothing :
      (t : Task)
      → fetch task_key task_id db.tasks ≡ some t
      → c.status ≢ set none
      → changes_nothing c ≡ true
      → update_task task_id c now event db ≡ (ok t, db)
  unfolding update_task get_task
  update_task_nothing t found proper nothing =
      rw found (rw (refuse_null_status_lem c.status proper) (rw nothing (rw found)))

  pub refetch :
      (t : Task)
      → fetch task_key task_id db.tasks ≡ some t
      → fetch task_key task_id touched.tasks ≡ some (apply_changes c now t)
  refetch t found =
      rw (fetch-update task_key task_id task_id (apply_changes c now) db.tasks (λ x. refl))
        (rw (str_eq_refl task_id) (rw found))

  pub update_task-known :
      (t : Task)
      → fetch task_key task_id db.tasks ≡ some t
      → c.status ≢ set none
      → changes_nothing c ≡ false
      → any (has_key event_key event.id) db.events ≡ false
      → update_task task_id c now event db ≡ (
        ok (apply_changes c now t),
        record touched {
          events = db.events ++ status_events c.status task_id (apply_changes c now t) event;
        },
      )
  unfolding update_task get_task update_task_fields
  update_task-known t found proper some_change free = rw found (
      rw (refuse_null_status_lem c.status proper) (
        rw some_change (
          rw (refetch t found) (
            rw (
              log_status_lem c.status (apply_changes c now t) free
                (fetch-any task_key task_id t db.tasks found))))))

-- The row of one task is the same in both stores.
pub record SameAt (j : String) (a b : Db) : Type 0 where
  pub same : fetch task_key j b.tasks ≡ fetch task_key j a.tasks

module _ (j : String) where
  pub same_at : IsPreorder (SameAt j)
  same_at = record {
    refl = λ a. record { same = refl };
    trans = λ a b c p q. record { same = q.same ∙ p.same };
  }

  pub get_task-same : (task_id : String) → Keeps (SameAt j) (get_task task_id)
  unfolding get_task
  get_task-same task_id = record { at = λ db. (Keeps-require same_at _ _).at db }

  get_event-same : (event_id : String) → Keeps (SameAt j) (get_event event_id)
  unfolding get_event
  get_event-same event_id = record { at = λ db. (Keeps-require same_at _ _).at db }

  append_event-same :
      (e : TaskEvent)
      → Keeps (SameAt j) (modify (λ (db : Db). record db { events = db.events ++ e ∷ [] }))
  append_event-same e = Keeps-modify _ (λ db. record { same = refl })

  pub add_event-same :
      (task_id event_type message : String) (agent_name session_id : Option String) (stamp : Stamp)
      → Keeps (SameAt j) (add_event task_id event_type message agent_name session_id stamp)
  unfolding add_event insert_event
  add_event-same task_id event_type message agent_name session_id stamp =
      search (same_at, Keeps-bind, Keeps-refuse_if, append_event-same, get_event-same)

  pub log_status-same :
      (s : Change (Option TaskStatus)) (task_id : String) (t : Task) (event : Stamp)
      → Keeps (SameAt j) (log_status s task_id t event)
  log_status-same unset task_id t event = Keeps-pure same_at tt
  log_status-same (set s) task_id t event = search (same_at, Keeps-bind, Keeps-pure, add_event-same)

  refuse_null_status-same :
      (s : Change (Option TaskStatus)) → Keeps (SameAt j) (refuse_null_status s)
  refuse_null_status-same unset = Keeps-pure same_at tt
  refuse_null_status-same (set none) = record { at = same_at.refl }
  refuse_null_status-same (set (some s)) = Keeps-pure same_at tt

  update_task_fields-same :
      (task_id : String) (c : TaskChanges) (now : String)
      → j ≢ task_id
      → Keeps (SameAt j) (update_task_fields task_id c now)
  unfolding update_task_fields
  update_task_fields-same task_id c now other = Keeps-modify _ λ db. record {
    same =
        fetch-update task_key task_id j (apply_changes c now) db.tasks (λ x. refl)
        ∙ ground (arith, str_eq_iff task_id j);
  }

  pub update_task-same :
      (task_id : String) (c : TaskChanges) (now : String) (event : Stamp)
      → j ≢ task_id
      → Keeps (SameAt j) (update_task task_id c now event)
  unfolding update_task
  update_task-same task_id c now event other = Keeps-bind same_at _ _ (get_task-same task_id) λ _.
      Keeps-bind same_at _ _ (refuse_null_status-same c.status) λ _.
        if_ind (Keeps (SameAt j)) (changes_nothing c) _ _ (get_task-same task_id) (
          Keeps-bind same_at _ _ (update_task_fields-same task_id c now other)
            λ _. search (same_at, Keeps-bind, Keeps-pure, get_task-same, log_status-same))

-- No path of `update_task` writes to another task.
pub update_task_frame :
    (task_id j : String) (c : TaskChanges) (now : String) (event : Stamp) (db : Db)
    → j ≢ task_id
    → fetch task_key j (update_task task_id c now event db).1.tasks ≡ fetch task_key j db.tasks
update_task_frame task_id j c now event db other =
    ((update_task-same j task_id c now event other).at db).same
