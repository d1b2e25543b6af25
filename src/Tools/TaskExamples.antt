-- ===== src/Tools/TaskExamples.antt =====
-- Two tasks of two agents, and the theorems on the tools at them.
use feather_os.Prelude.{
  pos, List, String, ◌≡◌, ◌≢◌, refl, true, false, none, some, [], ◌∷◌, inl, inr, arith, order_by,
  strip, clean_optional, str_leb, int_text, fetch, In, ok, Result, Option,
}
use feather_os.Ipc.Json.{text, boolean, no_field, field, Fields}
use feather_os.Mailbox.{enforce_inbox_cap, send_transaction, send, claim_reply}
use feather_os.Tasks.Records.{Db, Stamp, Task, TaskStatus, task_key}
use feather_os.Tasks.Events.{get_task, get_event, insert_event, add_event}
use feather_os.Tasks.Work.{
  find_task_by_session, list_tasks, insert_task, create_task, update_task_fields, update_task,
}
use feather_os.Tasks.Outputs.{get_output, insert_output, add_output}
use feather_os.Tools.TaskTools.{
  ToolExecutionContext, Python, Files, owns, optional_str, require_text, resolve_task, task_update,
}
use feather_os.Tools.TaskOutputTool.{task_output}
use feather_os.Tasks.Plans.{get_plan, insert_plan, create_plan, find_plan_by_filepath}
use feather_os.Tools.TaskCreateTool.{task_create}
use feather_os.Tools.TaskListTool.{listed_tasks}
use feather_os.Tools.Visibility.{listed_tasks-owned}
use feather_os.Tools.OwnTasks.{task_tools-foreign}
use feather_os.Tools.RequestInput.{
  World, Waiting, poll, wait_for_reply, Stamps, resume_task, block_task, request_input, timed_out,
}
use feather_os.Tools.Waiting.{IsSleeping}
use feather_os.Tools.Running.{IsRunningAt, request_input-IsRunning}

abbrev stamp : String → Stamp
stamp id = record { id = id; now = "t1" }

abbrev task_of : String → String → Task
task_of id session_id = record {
  id = id;
  plan_id = none;
  parent_task_id = none;
  title = "survey";
  description = "";
  success_criteria = "";
  required_outputs = [];
  status = TaskStatus.running;
  responsible_agent_name = some "engineer";
  responsible_session_id = some session_id;
  lead_session_id = "lead";
  blocked_question = none;
  blocked_correlation_id = none;
  error = none;
  created_at = "t0";
  updated_at = "t0";
}

abbrev board : Db
board = record {
  plans = [];
  tasks = task_of "k1" "a" ∷ task_of "k2" "b" ∷ [];
  runs = [];
  outputs = [];
  events = [];
}

abbrev python : Python
python = record { lower = λ s. s; repr = λ v. "value"; nonzero = λ x. true }

abbrev files : Files
files = record { is_inside_root = λ p. true; exists = λ p. true }

abbrev agent : ToolExecutionContext
agent = record { session_id = "a"; is_lead = false }

abbrev report : Fields
report = field "kind" (text "report") (
    field "content" (text "all done") (
      field "summary" (text "done")
        (field "is_final" (boolean true) (field "status" (text "stopped") no_field))))

program : Unit {0}
unfolding order_by strip clean_optional str_leb int_text enforce_inbox_cap send_transaction send
    claim_reply get_task get_event insert_event add_event find_task_by_session update_task_fields
    update_task get_output insert_output add_output optional_str require_text resolve_task
    task_update task_output poll wait_for_reply resume_task block_task request_input
program = tt

recorded :
    (task_output python files agent report (stamp "o1") (stamp "e1") "t2" (stamp "e2") board).0
    ≡ ok
        "Recorded task output.\ntask_id: k1\noutput_id: o1\nkind: report\nis_final: True\npath: -\nsummary: done"
unfolding program
recorded = refl

task_tools-foreign_example :
    (fetch task_key "k2" (task_update python agent report "t2" (stamp "e2") board).1.tasks
      ≡ some (task_of "k2" "b"))
    × (fetch task_key "k2"
          (task_output python files agent report
            (stamp "o1")
            (stamp "e1")
            "t2"
            (stamp "e2")
            board).1.tasks
        ≡ some (task_of "k2" "b"))
task_tools-foreign_example =
    task_tools-foreign python files agent report (stamp "o1") (stamp "e1") (stamp "e2") "t2" board
      (task_of "k2" "b") (refl, (refl, tt)) (inr (inl refl)) refl

-- Nobody answers, and somebody stops the task meanwhile.
abbrev stopping : World → World
stopping w = record w { tasks = (task_update python agent report "t3" (stamp "e3") w.tasks).1 }

abbrev silence : Waiting
silence = record { others = λ k w. stopping w; clock = λ k. k; stamp = λ k. "t4" }

silence-IsSleeping : IsSleeping 1 2 silence
silence-IsSleeping = record { positive = omega arith; sleeps = λ k. ground arith }

abbrev desk : World
desk = record { tasks = board; mailbox = record { inbox_cap = 3; messages = [] } }

abbrev question : Fields
question = field "question" (text "which?") no_field

abbrev stamps : Stamps
stamps = record {
  sent_at = "t1";
  message_id = "m1";
  correlation = "q1";
  blocked_at = "t1";
  blocked_event = stamp "e4";
  requested_event = stamp "e5";
  running_at = "t5";
  running_event = stamp "e6";
  ended_event = stamp "e7";
}

abbrev waited : Result (Option String) × World
waited = request_input python (λ v. "value") "engineer" agent question 2 "2" silence stamps desk

abbrev default_taken : String
default_taken = timed_out python (λ v. "value") "engineer" agent question "k1" "q1" "which?" "2"

waited_in_vain : waited.0 ≡ ok (some default_taken)
unfolding program
waited_in_vain = refl

-- The task was stopped during the wait; it runs again.
request_input-IsRunning_example :
    (some default_taken ≢ none)
    × ((t : Task) × In t board.tasks × (owns agent t ≡ true) × IsRunningAt t.id waited.1.tasks)
request_input-IsRunning_example =
    request_input-IsRunning python (λ v. "value") "engineer" agent question 1 2 "2" silence stamps
      desk (some default_taken) silence-IsSleeping waited_in_vain

abbrev own_tasks : List Task
own_tasks = task_of "k1" "a" ∷ []

listed_own : listed_tasks python agent no_field (λ v. ok (pos 3)) board ≡ ok own_tasks
unfolding program list_tasks listed_tasks
listed_own = refl

listed_tasks-owned_example :
    In (task_of "k1" "a") board.tasks × (owns agent (task_of "k1" "a") ≡ true)
listed_tasks-owned_example =
    listed_tasks-owned python agent no_field (λ v. ok (pos 3)) board own_tasks (task_of "k1" "a")
      listed_own (inl refl)

-- The plan is made with the first task of its file.
planned :
    (task_create python
      (λ v. "x")
      agent
      (field "title" (text " build ") (field "plan_filepath" (text "plan.md") no_field))
      (stamp "p1")
      (stamp "k3")
      (stamp "e8")
      board).0
    ≡ ok
        "Created task.\nid: k3\ntitle: build\nstatus: queued\nplan_id: p1\nlead_session_id: a\nresponsible: - -\nrequired_outputs: -\nblocked_question: -\nerror: -"
unfolding program get_plan insert_plan create_plan find_plan_by_filepath insert_task create_task
    task_create
planned = refl
