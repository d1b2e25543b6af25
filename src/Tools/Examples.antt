-- ===== src/Tools/Examples.antt =====
-- Messages from one agent to another, and the theorem at one of them.
use feather_os.Prelude.{
  ℤ, pos, String, ◌≡◌, refl, true, Option, none, some, [], ◌∷◌, order_by, strip, int_text, length,
  Result, ok,
}
use feather_os.Ipc.Json.{text, boolean, no_field, field, Fields}
use feather_os.Mailbox.{enforce_inbox_cap, send_transaction, send}
use feather_os.Sessions.State.{get_session, create_session}
use feather_os.Subagents.Registry.{
  LiveSubagent, get, evict_expired, evict_above_cap, is_recently_exited,
}
use feather_os.Tools.SendMessage.{
  World, SendMessageTool, Stamps, require_str, truncated, receipt, read_arguments, check_session,
  check_subagent, send_message,
}
use feather_os.Tools.Sending.{Outcome, send_message-Outcome}

abbrev child : LiveSubagent
child = record {
  session_id = "c";
  agent_name = "engineer";
  parent_session_id = "p";
  parent_agent_name = "lead";
  task_text = "build";
  correlation_id = none;
  task_id = none;
  task_run_id = none;
}

abbrev office : World
office = record {
  sessions =
      (create_session "engineer" (some "c") "k" "t0"
        (record { sessions = []; messages = []; attachments = [] })).1;
  registry = record { live = child ∷ []; graveyard = [] };
  mailbox = record { inbox_cap = 3; messages = [] };
}

abbrev lead_tool : SendMessageTool
lead_tool = record {
  from_agent_name = "lead";
  has_session_store = true;
  has_subagent_registry = true;
}

abbrev request : Fields
request = field "to_agent_name" (text "engineer") (
    field "to_session_id" (text " c ")
      (field "body" (text "how far?") (field "expects_response" (boolean true) no_field)))

abbrev stamps : Stamps
stamps = record { clock = 0; now = "t1"; message_id = "m1"; fresh = "q1" }

abbrev ask : (String → Option ℤ) → Result String × World
ask returncode =
    send_message lead_tool "p" returncode (λ e. "unknown") (λ x. true) request stamps office

program : Unit {0}
unfolding order_by strip int_text enforce_inbox_cap send_transaction send get_session create_session
    get evict_expired evict_above_cap is_recently_exited require_str truncated receipt
    read_arguments check_session check_subagent send_message
program = tt

asked :
    (ask (λ i. none)).0
    ≡ ok "message_id: m1\nto: engineer (session_id=c)\nstatus: pending\ncorrelation_id: q1"
unfolding program
asked = refl

-- A child whose process has ended gets nothing.
refused_exited : length (ask (λ i. some (pos 0))).1.mailbox.messages ≡ 0
unfolding program
refused_exited = refl

send_message-Outcome_example :
    Outcome lead_tool "p"
      (λ i. none)
      (λ e. "unknown")
      (λ x. true)
      request
      stamps
      office
      (ask (λ i. none))
send_message-Outcome_example =
    send_message-Outcome lead_tool "p" (λ i. none) (λ e. "unknown") (λ x. true) request stamps
      office
