-- ===== src/Tasks/Plans.antt =====
-- `create_plan`, `get_plan` and `find_plan_by_filepath`.
use feather_os.Prelude.{
  String, ◌<>◌, Bool, ◌&&◌, Option, [], ◌∷◌, ◌++◌, str_eq, strip, is_empty, select, any, head?,
  has_key, fetch, asc_text, desc, then_by, order_by, Exec, refuse_if, modify, raise_if, require,
  ◌>>◌,
}
use feather_os.Tasks.Records.{Db, Stamp, Plan, PlanStatus, plan_key}

-- The keyword arguments of `create_plan`.
pub record NewPlan : Type 0 where
  pub filepath : String
  pub title : String
  pub summary : String
  pub lead_session_id : String
  pub status : PlanStatus

unfoldable pub get_plan : String → Exec Db Plan
get_plan plan_id db = require (fetch plan_key plan_id db.plans) ("Unknown plan: " <> plan_id) db

unfoldable pub insert_plan : Plan → Exec Db Unit
insert_plan p = do
  refuse_if (λ db. any (has_key plan_key p.id) db.plans)
  modify (λ db. record db { plans = db.plans ++ p ∷ [] })

abbrev pub new_plan : NewPlan → Stamp → Plan
new_plan a stamp = record {
  id = stamp.id;
  filepath = strip a.filepath;
  title = strip a.title;
  summary = strip a.summary;
  status = a.status;
  lead_session_id = a.lead_session_id;
  created_at = stamp.now;
  updated_at = stamp.now;
}

unfoldable pub create_plan : NewPlan → Stamp → Exec Db Plan
create_plan a stamp = do
  raise_if (is_empty (strip a.filepath)) "Plan `filepath` must not be empty."
  raise_if (is_empty (strip a.title)) "Plan `title` must not be empty."
  raise_if (is_empty a.lead_session_id) "Plan `lead_session_id` must not be empty."
  insert_plan (new_plan a stamp)
  get_plan stamp.id

abbrev pub newest_plan : Plan → Plan → Bool
newest_plan =
    then_by (desc (asc_text (λ (p : Plan). p.created_at))) (desc (asc_text (λ (p : Plan). p.id)))

unfoldable pub find_plan_by_filepath : String → String → Db → Option Plan
find_plan_by_filepath lead_session_id filepath db = head? (
    order_by newest_plan (
      select (λ p. str_eq p.lead_session_id lead_session_id && str_eq p.filepath (strip filepath))
        db.plans))
