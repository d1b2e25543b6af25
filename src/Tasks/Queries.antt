-- ===== src/Tasks/Queries.antt =====
-- What the queries of the task store return.
use feather_os.Prelude.{
  ℕ, ◌≤◌, min, String, ◌≡◌, ◌∙◌, Bool, true, false, none, some, arith, if◌then◌else◌, ◌⊎◌, inl, inr,
  leb, select, take, count, In, length, All-In, order_by, In-order_by, order_by-In, length-order_by,
  IsOrder, IsSorted, order_by-IsSorted, IsTop, take-IsTop, first_lem, then_by-IsOrder,
  asc_text-IsOrder, asc-IsOrder, desc-IsOrder, asc, desc, then_by,
}
use feather_os.Tasks.Records.{Db, Task, TaskEvent}
use feather_os.Tasks.Events.{clamp_limit, event_order, of_task, list_events}
use feather_os.Tasks.Work.{
  TaskFilter, passes, list_order, recent_task, list_tasks, is_terminal, terminal_rank, assigned_to,
  find_task_by_session, status_rank,
}

recent_task-IsOrder : IsOrder recent_task
recent_task-IsOrder =
    then_by-IsOrder (desc-IsOrder (asc_text-IsOrder _)) (desc-IsOrder (asc_text-IsOrder _))

clamp_bounds : (limit : ℕ) → clamp_limit limit ≤ 200
clamp_bounds limit = omega arith

size_bounded : (n c l : ℕ) → n ≤ 200 → l ≡ min n c → l ≤ 200
size_bounded n c l h e = omega arith

list_order-IsOrder : IsOrder list_order
list_order-IsOrder =
    then_by-IsOrder (asc-IsOrder (λ (t : Task). status_rank t.status)) recent_task-IsOrder

-- `list_tasks` returns at most 200 tasks, whatever the limit: those that pass every given filter,
-- the running first, then the blocked, the queued, the failed and the rest, the latest changed
-- first in each group; what the limit leaves out comes after all that is listed.
pub list_tasks_lem :
    (f : TaskFilter) (limit : ℕ) (db : Db)
    → IsTop list_order (passes f) (clamp_limit limit) db.tasks (list_tasks f limit db)
      × (length (list_tasks f limit db) ≤ 200)
unfolding list_tasks
list_tasks_lem f limit db =
    let top = take-IsTop list_order list_order-IsOrder (passes f) db.tasks (clamp_limit limit) in
    (top, size_bounded (clamp_limit limit) _ _ (clamp_bounds limit) top.size)

event_order-IsOrder : IsOrder event_order
event_order-IsOrder = then_by-IsOrder (asc_text-IsOrder _) (asc_text-IsOrder _)

-- `list_events` returns events of the task in chronological order, as many as the limit, cut to
-- 1 to 200, allows; an event that it leaves out is no newer than any that it lists.
pub list_events_lem :
    (task_id : String) (limit : ℕ) (db : Db)
    → IsSorted event_order (list_events task_id limit db)
      × (length (list_events task_id limit db)
          ≡ min (clamp_limit limit) (count (of_task task_id) db.events))
      × ((e x : TaskEvent)
          → In e db.events
          → of_task task_id e ≡ true
          → In x (list_events task_id limit db)
          → In e (list_events task_id limit db) ⊎ (event_order e x ≡ true))
unfolding list_events
list_events_lem task_id limit db =
    let newest =
      take (clamp_limit limit) (order_by (desc event_order) (select (of_task task_id) db.events)) in
    let top =
      take-IsTop (desc event_order) (desc-IsOrder event_order-IsOrder) (of_task task_id) db.events
        (clamp_limit limit) in
    (
      order_by-IsSorted event_order event_order-IsOrder newest,
      length-order_by event_order newest ∙ top.size,
      λ e x here own listed. elim (top.complete e here own) [
        | inl i ↦ inl (order_by-In event_order e newest i)
        | inr a ↦ inr (
            All-In (λ y. event_order e y ≡ true) x newest a
              (In-order_by event_order x newest listed))
      ],
    )

session-IsOrder : IsOrder (then_by (asc terminal_rank) recent_task)
session-IsOrder = then_by-IsOrder (asc-IsOrder terminal_rank) recent_task-IsOrder

ranked_tie :
    (a b c : Bool)
    → (if leb (if a then 1 else 0) (if b then 1 else 0)
        then (if leb (if b then 1 else 0) (if a then 1 else 0) then c else true)
        else false)
      ≡ true
    → a ≡ b
    → c ≡ true
ranked_tie true true c h e = h
ranked_tie false false c h e = h
ranked_tie true false c h e = cc
ranked_tie false true c h e = cc

unfinished_first :
    (t u : Task)
    → then_by (asc terminal_rank) recent_task t u ≡ true
    → is_terminal t.status ≡ true
    → is_terminal u.status ≡ true
unfinished_first t u h e = ground arith

latest_first :
    (t u : Task)
    → then_by (asc terminal_rank) recent_task t u ≡ true
    → is_terminal t.status ≡ is_terminal u.status
    → recent_task t u ≡ true
latest_first t u h e =
    ranked_tie (is_terminal t.status) (is_terminal u.status) (recent_task t u) h e

-- `find_task_by_session` returns None exactly if no task is assigned to the session; it returns a
-- finished task only if every task of the session is finished, and of the candidates the one that
-- changed last.
pub find_task_by_session_lem :
    (session_id : String) (db : Db)
    → ((find_task_by_session session_id db ≡ none)
        × ((t : Task) → In t db.tasks → assigned_to session_id t ≡ false))
      ⊎ ((t : Task) × (find_task_by_session session_id db ≡ some t)
          × In t db.tasks
          × (assigned_to session_id t ≡ true)
          × ((u : Task)
              → In u db.tasks
              → assigned_to session_id u ≡ true
              → ((is_terminal t.status ≡ true) → is_terminal u.status ≡ true)
                × (is_terminal t.status ≡ is_terminal u.status → recent_task t u ≡ true)))
unfolding find_task_by_session
find_task_by_session_lem session_id db =
    elim (first_lem (then_by (asc terminal_rank) recent_task) session-IsOrder
      (assigned_to session_id) db.tasks) [
        | inl none_there ↦ inl none_there
        | inr (t, e, here, own, first) ↦ inr (
          t,
          e,
          here,
          own,
          λ u i a. (unfinished_first t u (first u i a), latest_first t u (first u i a)),
        )
      ]
