-- ===== src/Tasks/Creation.antt =====
-- What `create_task`, `create_run` and `finish_run` do to the store.
pub mod Fields
use feather_os.Prelude.{
  String, ◌<>◌, ◌≡◌, refl, true, false, Option, none, some, [], ◌∷◌, ◌++◌, str_eq_refl, strip,
  is_empty, update, any, has_key, fetch, fetch-snoc, fetch-any, fetch-none, fetch-update,
  fetch_total, update-missing, ok, err, value_error, if_given,
}
use feather_os.Tasks.Records.{
  Db, Stamp, TaskRun, task_key, event_key, plan_key, run_key, run_status_value,
}
use feather_os.Tasks.Events.{get_task, new_event, task_exists}
use feather_os.Tasks.Plans.{get_plan}
use feather_os.Tasks.Work.{NewTask, new_task, insert_task, create_task, refers}
use feather_os.Tasks.Runs.{Ending, get_run, end_run, envelope_text, update_run_fields, finish_run}
use feather_os.Tasks.Updates.{add_event_lem}

-- What `create_task` demands of its arguments and of the store.
pub record IsCreatable (a : NewTask) (db : Db) : Type 0 where
  pub titled : is_empty (strip a.title) ≡ false
  pub led : is_empty a.lead_session_id ≡ false
  pub planned : refers plan_key a.plan_id db.plans ≡ true
  pub parented : refers task_key a.parent_task_id db.tasks ≡ true

pub given_plan :
    (o : Option String) (db : Db)
    → refers plan_key o db.plans ≡ true
    → if_given o get_plan db ≡ (ok tt, db)
unfolding get_plan
given_plan none db h = refl
given_plan (some k) db h = let (p, e) = fetch_total plan_key k db.plans h in rw e

given_task :
    (o : Option String) (db : Db)
    → refers task_key o db.tasks ≡ true
    → if_given o get_task db ≡ (ok tt, db)
unfolding get_task
given_task none db h = refl
given_task (some k) db h = let (t, e) = fetch_total task_key k db.tasks h in rw e

module _ (a : NewTask) (row event : Stamp) (db : Db) where
  abbrev inserted : Db
  inserted = record db { tasks = db.tasks ++ new_task a row ∷ [] }

  insert_task_lem :
      IsCreatable a db
      → any (has_key task_key row.id) db.tasks ≡ false
      → insert_task (new_task a row) db ≡ (ok tt, inserted)
  unfolding insert_task
  insert_task_lem v free = rw free (rw v.planned (rw v.parented))

  pub found :
      any (has_key task_key row.id) db.tasks ≡ false
      → fetch task_key row.id inserted.tasks ≡ some (new_task a row)
  found free =
      rw (fetch-snoc task_key row.id (new_task a row) db.tasks free) (rw (str_eq_refl row.id))

  pub create_task-creatable :
      IsCreatable a db
      → any (has_key task_key row.id) db.tasks ≡ false
      → any (has_key event_key event.id) db.events ≡ false
      → create_task a row event db ≡ (
        ok (new_task a row),
        record inserted {
          events =
              db.events
              ++ new_event row.id "created"
                  ("Task created: " <> strip a.title)
                  a.responsible_agent_name
                  a.responsible_session_id
                  event
                ∷ [];
        },
      )
  unfolding create_task get_task
  create_task-creatable v free free_event = rw v.titled (
      rw v.led (
        rw (given_plan a.plan_id db v.planned) (
          rw (given_task a.parent_task_id db v.parented) (
            rw (insert_task_lem v free) (
              rw
                (add_event_lem row.id "created" ("Task created: " <> strip a.title)
                  a.responsible_agent_name a.responsible_session_id event inserted free_event
                  (fetch-any task_key row.id (new_task a row) inserted.tasks (found free)))
                (rw (found free)))))))

module _ (run_id : String) (e : Ending) (now : String) (event : Stamp) (db : Db) where
  -- An unknown run is refused, and nothing is written.
  pub finish_run_unknown :
      fetch run_key run_id db.runs ≡ none
      → finish_run run_id e now event db ≡ (err (value_error ("Unknown task run: " <> run_id)), db)
  unfolding finish_run update_run_fields get_run
  finish_run_unknown missing =
      rw
        (update-missing run_key run_id (end_run e now) db.runs
          (fetch-none run_key run_id db.runs missing))
        (rw missing)

  -- A known run of a known task is ended: its status, exit code, envelope, error and end are
  -- written, no other run is, and the end is logged on the timeline of its task.
  pub finish_run_lem :
      (r : TaskRun)
      → fetch run_key run_id db.runs ≡ some r
      → task_exists r.task_id db ≡ true
      → any (has_key event_key event.id) db.events ≡ false
      → finish_run run_id e now event db ≡ (
        ok (end_run e now r),
        record db {
          runs = update (has_key run_key run_id) (end_run e now) db.runs;
          events =
              db.events
              ++ new_event r.task_id "run_finished"
                  ("Run ended: "
                    <> (run_status_value e.status
                        <> (" envelope=" <> envelope_text e.envelope_status)))
                  (some r.agent_name)
                  (some r.session_id)
                  event
                ∷ [];
        },
      )
  unfolding finish_run update_run_fields get_run
  finish_run_lem r known task free =
      rw (fetch-update run_key run_id run_id (end_run e now) db.runs (λ x. refl)) (
        rw (str_eq_refl run_id) (
          rw known (
            rw (
              add_event_lem r.task_id "run_finished"
                ("Run ended: "
                  <> (run_status_value e.status
                      <> (" envelope=" <> envelope_text e.envelope_status)))
                (some r.agent_name) (some r.session_id) event
                (record db { runs = update (has_key run_key run_id) (end_run e now) db.runs }) free
                task))))
