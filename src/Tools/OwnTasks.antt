-- ===== src/Tools/OwnTasks.antt =====
-- src/feather/tools/task_tools.py: which rows the tools may write to.
use feather_os.Prelude.{
  String, ◌≡◌, ◌≢◌, refl, sym, ap, ◌∙◌, true, false, Bool-cases, Option, none, some, Option-cases,
  List, [], ◌∷◌, ◌++◌, inl, inr, In, In-select, In-order_by, fetch, fetch-In, fetch-key, IsKeyed,
  IsKeyed-unique, head?, Result-cases, ok, err, Exec, Keeps, Keeps-pure, Keeps-bind, Keeps-require,
  Keeps-refuse_if, Keeps-raise_if, Keeps-lift, Keeps-modify, modify, if_ind, fetch_total,
  any_key_of_In, ◌⊎◌, Error, value_error, ◌>>=◌,
}
use feather_os.Ipc.Json.{Fields}
use feather_os.Tasks.Records.{Db, Stamp, Task, TaskOutput, task_key}
use feather_os.Tasks.Events.{get_task}
use feather_os.Tasks.Work.{find_task_by_session, assigned_to}
use feather_os.Tasks.Outputs.{NewOutput, get_output, insert_output, add_output}
use feather_os.Tasks.Updates.{SameAt, same_at, get_task-same, add_event-same, update_task-same}
use feather_os.Tools.TaskTools.{
  ToolExecutionContext, Python, Files, owns, look_up, refusal, resolve_task, optional, task_update,
}
use feather_os.Tools.TaskOutputTool.{task_output, refuse_output, complete_if_final}

head-In : {A : Type 0} (x : A) (xs : List A) → head? xs ≡ some x → In x xs
head-In x [] h = cc
head-In x (y ∷ xs) h = let same : y ≡ x = cc in inl (sym same)

fetch_keyed :
    (t : Task) (tasks : List Task)
    → IsKeyed task_key tasks
    → In t tasks
    → fetch task_key t.id tasks ≡ some t
fetch_keyed t tasks keyed here =
    let (x, found) =
      fetch_total task_key t.id tasks (any_key_of_In task_key t.id t tasks here refl) in
    let same =
      IsKeyed-unique task_key tasks x t keyed (fetch-In task_key t.id x tasks found) here
        (fetch-key task_key t.id x tasks found) in
    found ∙ ap some same

look_up-In :
    (c : ToolExecutionContext) (task_id : Option String) (db : Db) (t : Task)
    → (look_up c task_id db).0 ≡ ok t
    → In t db.tasks
unfolding find_task_by_session get_task
look_up-In c none db t h = elim (Option-cases (find_task_by_session c.session_id db)) [
  | inl missing ↦ cc (rw missing at h)
  | inr (x, found) ↦
      let same : ok x ≡ ok t = rw found at h in
      let p : x ≡ t = cc in
      (In-select (assigned_to c.session_id) t db.tasks
        (In-order_by _ t _ (head-In t _ (found ∙ ap some p)))).0
]
look_up-In c (some task_id) db t h = elim (Option-cases (fetch task_key task_id db.tasks)) [
  | inl missing ↦ cc (rw missing at h)
  | inr (x, found) ↦
      let same : ok x ≡ ok t = rw found at h in
      let p : x ≡ t = cc in fetch-In task_key task_id t db.tasks (found ∙ ap some p)
]

look_up-state :
    (c : ToolExecutionContext) (task_id : Option String) (db : Db) → (look_up c task_id db).1 ≡ db
unfolding get_task
look_up-state c none db = elim (Option-cases (find_task_by_session c.session_id db)) [
  | inl missing ↦ rw missing refl
  | inr (x, found) ↦ rw found refl
]
look_up-state c (some task_id) db = elim (Option-cases (fetch task_key task_id db.tasks)) [
  | inl missing ↦ rw missing refl
  | inr (x, found) ↦ rw found refl
]

-- A task that was resolved is a row of the store that its caller owns; nothing is written.
pub resolve_task-cases :
    (c : ToolExecutionContext) (task_id : Option String) (db : Db)
    → ((t : Task) × (resolve_task c task_id db ≡ (ok t, db)) × In t db.tasks × (owns c t ≡ true))
      ⊎ ((e : Error) × (resolve_task c task_id db ≡ (err e, db)))
unfolding resolve_task
resolve_task-cases c task_id db =
    let stays = look_up-state c task_id db in
    elim (Result-cases (look_up c task_id db).0) [
      | inr (e, failed) ↦ inr (e, rw (failed, stays) refl)
      | inl (t, found) ↦ elim (Bool-cases (owns c t)) [
        | inl own ↦ inl (t, rw (found, stays, own) refl, look_up-In c task_id db t found, own)
        | inr other ↦ inr (value_error (refusal c), rw (found, stays, other) refl)
      ]
    ]

module _ (c : ToolExecutionContext) (db : Db) (j : Task) where
  -- What follows the resolution may write to the row of its task alone.
  resolved-Keeps :
      {A : Type 0} (task_id : Option String) (rest : Task → Exec Db A)
      → IsKeyed task_key db.tasks
      → In j db.tasks
      → owns c j ≡ false
      → ((t : Task) → j.id ≢ t.id → Keeps (SameAt j.id) (rest t))
      → fetch task_key j.id ((resolve_task c task_id >>= rest) db).1.tasks ≡ some j
  resolved-Keeps task_id rest keyed here foreign keeps = elim (resolve_task-cases c task_id db) [
    | inr (e, failed) ↦ rw failed (fetch_keyed j db.tasks keyed here)
    | inl (t, found, there, own) ↦
        let apart : j.id ≢ t.id = λ same.
          let mine = ap (owns c) (IsKeyed-unique task_key db.tasks j t keyed here there same) in
          cc (foreign, own, mine) in
        rw found (((keeps t apart).at db).same ∙ fetch_keyed j db.tasks keyed here)
  ]

module _ (j : String) where
  append_output-same :
      (o : TaskOutput)
      → Keeps (SameAt j) (modify (λ (db : Db). record db { outputs = db.outputs ++ o ∷ [] }))
  append_output-same o = Keeps-modify _ (λ db. record { same = refl })

  insert_output-same : (o : TaskOutput) → Keeps (SameAt j) (insert_output o)
  unfolding insert_output
  insert_output-same o = search (same_at j, Keeps-bind, Keeps-refuse_if, append_output-same)

  get_output-same : (output_id : String) → Keeps (SameAt j) (get_output output_id)
  unfolding get_output
  get_output-same output_id = record { at = λ db. (Keeps-require (same_at j) _ _).at db }

  add_output-same : (a : NewOutput) (row event : Stamp) → Keeps (SameAt j) (add_output a row event)
  unfolding add_output
  add_output-same a row event =
      search
        (
          same_at j,
          Keeps-bind,
          Keeps-raise_if,
          get_task-same j,
          insert_output-same,
          add_event-same j,
          get_output-same,
        )
        depth 10

  complete-same :
      (task_id : String) (o : TaskOutput) (now : String) (event : Stamp)
      → j ≢ task_id
      → Keeps (SameAt j) (complete_if_final task_id o now event)
  complete-same task_id o now event other =
      if_ind (Keeps (SameAt j)) o.is_final _ _
        (Keeps-bind (same_at j) _ _ (update_task-same j task_id _ now event other)
          λ _. Keeps-pure (same_at j) tt)
        (Keeps-pure (same_at j) tt)

refuse_output-same :
    (j : String) (python : Python) (files : Files) (c : ToolExecutionContext) (arguments : Fields)
    (t : Task)
    → Keeps (SameAt j) (refuse_output python files c arguments t)
refuse_output-same j python files c arguments t =
    search (same_at j, Keeps-bind, Keeps-raise_if, Keeps-lift)

-- In a store in which each task id stands once, neither `task_update` nor `task_output`, whatever its
-- arguments and however it ends, changes the row of a task that is not the caller's: one of another
-- lead's session, or for an agent that is no lead, one that another session is responsible for.
pub task_tools-foreign :
    (python : Python) (files : Files) (c : ToolExecutionContext) (arguments : Fields)
    (row logged event : Stamp) (now : String) (db : Db) (j : Task)
    → IsKeyed task_key db.tasks
    → In j db.tasks
    → owns c j ≡ false
    → (fetch task_key j.id (task_update python c arguments now event db).1.tasks ≡ some j)
      × (fetch task_key j.id (task_output python files c arguments row logged now event db).1.tasks
          ≡ some j)
unfolding task_update task_output
task_tools-foreign python files c arguments row logged event now db j keyed here foreign = (
  resolved-Keeps c db j (optional python c arguments "task_id") _ keyed here foreign
      (λ t other. search (same_at j.id, Keeps-bind, Keeps-lift, Keeps-pure, update_task-same j.id)),
  resolved-Keeps c db j (optional python c arguments "task_id") _ keyed here foreign (λ t other.
      search
        (
          same_at j.id,
          Keeps-bind,
          Keeps-lift,
          Keeps-pure,
          refuse_output-same j.id,
          add_output-same j.id,
          complete-same j.id,
        )
        depth 10),
)
