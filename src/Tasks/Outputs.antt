-- ===== src/Tasks/Outputs.antt =====
-- The operations on `task_outputs`: `add_output`, `get_output`, `list_outputs` and
-- `has_final_output`.
use feather_os.Prelude.{
  String, ◌<>◌, Bool, true, false, ◌&&◌, not, Option, none, some, List, [], ◌∷◌, ◌++◌,
  if◌then◌else◌, str_eq, strip, is_empty, clean_optional, select, any, has_key, fetch, asc,
  asc_text, then_by, order_by, Exec, refuse_if, modify, raise_if, require, ◌>>◌, ℕ,
}
use feather_os.Tasks.Records.{Db, Stamp, TaskOutput, OutputKind, output_key, kind_value}
use feather_os.Tasks.Events.{task_exists, get_task, add_event, or_else}

-- The keyword arguments of `add_output`.
pub record NewOutput : Type 0 where
  pub task_id : String
  pub kind : OutputKind
  pub path : Option String
  pub content : Option String
  pub summary : String
  pub created_by_session_id : String
  pub validated : Bool
  pub is_final : Bool

unfoldable pub get_output : String → Exec Db TaskOutput
get_output output_id db =
    require (fetch output_key output_id db.outputs) ("Unknown task output: " <> output_id) db

unfoldable pub insert_output : TaskOutput → Exec Db Unit
insert_output o = do
  refuse_if (λ db. any (has_key output_key o.id) db.outputs)
  refuse_if (λ db. not (task_exists o.task_id db))
  modify (λ db. record db { outputs = db.outputs ++ o ∷ [] })

abbrev pub new_output : NewOutput → Stamp → TaskOutput
new_output a stamp = record {
  id = stamp.id;
  task_id = a.task_id;
  kind = a.kind;
  path = clean_optional a.path;
  content = clean_optional a.content;
  summary = strip a.summary;
  created_by_session_id = a.created_by_session_id;
  validated = a.validated;
  is_final = a.is_final;
  created_at = stamp.now;
}

abbrev pub is_none : {A : Type 0} → Option A → Bool
is_none none = true
is_none (some _) = false

-- `path or summary`
abbrev pub path_or : Option String → String → String
path_or none summary = summary
path_or (some p) summary = or_else p summary

unfoldable pub add_output : NewOutput → (row event : Stamp) → Exec Db TaskOutput
add_output a row event = do
  get_task a.task_id
  raise_if (is_none a.path && is_none a.content) "Task output needs either `path` or `content`."
  raise_if (is_empty (strip a.summary)) "Task output `summary` must not be empty."
  insert_output (new_output a row)
  add_event a.task_id "output"
      ("Output added: " <> (kind_value a.kind <> (" " <> path_or a.path (strip a.summary)))) none
      (some a.created_by_session_id) event
  get_output row.id

abbrev pub draft_rank : TaskOutput → ℕ
draft_rank o = if o.is_final then 0 else 1

-- ORDER BY is_final DESC, created_at ASC, id ASC
abbrev pub output_order : TaskOutput → TaskOutput → Bool
output_order =
    then_by (asc draft_rank)
      (then_by (asc_text (λ (o : TaskOutput). o.created_at)) (asc_text (λ (o : TaskOutput). o.id)))

unfoldable pub list_outputs : String → Db → List TaskOutput
list_outputs task_id db = order_by output_order (select (λ o. str_eq o.task_id task_id) db.outputs)

unfoldable pub has_final_output : String → Db → Bool
has_final_output task_id db = any (λ o. str_eq o.task_id task_id && o.is_final) db.outputs
