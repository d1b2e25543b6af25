-- ===== src/Tools/SendMessage.antt =====
-- src/feather/tools/send_message_tool.py, `execute`, over the sessions, the registry of the sub-agents
-- and the mailbox. `returncode` is what the process of a child says, `error_text` is `str` of an
-- exception, `nonzero` the truth of a float.
use feather_os.Prelude.{
  ℕ, zero, ℤ, String, ◌<>◌, Bool, true, false, not, ◌&&◌, Option, none, some, List, [], ◌∷◌, ◌++◌,
  if◌then◌else◌, ltb, str_eq, strip, is_empty, prefix, text_length, join, int_text, pos, Error,
  value_error, Result, ok, err, Exec, pure, raise, lift, raise_if, ◌>>=◌, ◌>>◌,
}
use feather_os.Ipc.Json.{
  Json, null, boolean, integer, float, text, array, object, no_item, no_field, Fields, get,
}
use feather_os.Mailbox.{
  Status, pending, delivered, responded, expired, Message, Store, Outgoing, send,
}
use feather_os.Sessions.Records
use feather_os.Sessions.State.{get_session}
use feather_os.Subagents.Registry
use feather_os.Subagents.Registry.{LiveSubagent, SubagentRegistry, is_recently_exited}

abbrev pub max_body_chars : ℕ
max_body_chars = 16000

pub record World : Type 0 where
  pub sessions : Records.Db
  pub registry : SubagentRegistry
  pub mailbox : Store

-- The tool with what it was made with; a store that it was not given it does not ask.
pub record SendMessageTool : Type 0 where
  pub from_agent_name : String
  pub has_session_store : Bool
  pub has_subagent_registry : Bool

pub record Stamps : Type 0 where
  pub clock : ℕ
  pub now : String
  pub message_id : String
  pub fresh : String

pub record Arguments : Type 0 where
  pub to_agent : String
  pub to_session : String
  pub body : String
  pub expects_response : Bool
  pub in_reply_to : Option String

abbrev pub stripped_text : Option Json → Option String
stripped_text (some (text raw)) = if is_empty (strip raw) then none else some (strip raw)
stripped_text _ = none

abbrev pub or_value_error : Option String → String → Result String
or_value_error none message = err (value_error message)
or_value_error (some s) message = ok s

unfoldable pub require_str : Fields → String → Result String
require_str arguments key =
    or_value_error (stripped_text (get key arguments))
      ("send_message `" <> (key <> "` must be a non-empty string."))

-- `bool(value)`, with a missing value as False
abbrev pub truth : (String → Bool) → Option Json → Bool
truth nonzero none = false
truth nonzero (some null) = false
truth nonzero (some (boolean b)) = b
truth nonzero (some (integer (pos zero))) = false
truth nonzero (some (integer n)) = true
truth nonzero (some (float x)) = nonzero x
truth nonzero (some (text s)) = not (is_empty s)
truth nonzero (some (array no_item)) = false
truth nonzero (some (array items)) = true
truth nonzero (some (object no_field)) = false
truth nonzero (some (object fields)) = true

abbrev pub status_value : Status → String
status_value pending = "pending"
status_value delivered = "delivered"
status_value responded = "responded"
status_value expired = "expired"

unfoldable pub truncated : String → String
truncated body =
    if ltb max_body_chars (text_length body)
    then prefix max_body_chars body
      <> ("\n...(truncated to " <> (int_text (pos max_body_chars) <> " chars)"))
    else body

abbrev pub optional_line : String → Option String → List String
optional_line label none = []
optional_line label (some s) = (label <> s) ∷ []

unfoldable pub receipt : Arguments → Message → String
receipt a m = join "\n" (
    ("message_id: " <> m.id)
    ∷ ("to: " <> (a.to_agent <> (" (session_id=" <> (a.to_session <> ")"))))
    ∷ ("status: " <> status_value m.status)
    ∷ (optional_line "correlation_id: " m.correlation_id
        ++ optional_line "in_reply_to: " a.in_reply_to))

module _ (tool : SendMessageTool) (session_id : String) (returncode : String → Option ℤ)
    (error_text : Error → String) (nonzero : String → Bool) where
  abbrev pub with_options : Fields → (to_agent to_session body : String) → Arguments
  with_options arguments to_agent to_session body = record {
    to_agent = to_agent;
    to_session = to_session;
    body = body;
    expects_response = truth nonzero (get "expects_response" arguments);
    in_reply_to = stripped_text (get "in_reply_to" arguments);
  }

  unfoldable pub read_arguments : Fields → Exec World Arguments
  read_arguments arguments = do
    to_agent ← lift (require_str arguments "to_agent_name")
    to_session ← lift (require_str arguments "to_session_id")
    body ← lift (require_str arguments "body")
    pure (with_options arguments to_agent to_session body)

  abbrev pub refuse_unknown : String → Result Records.SessionRecord → Result (Unit {0})
  refuse_unknown to_session (ok s) = ok tt
  refuse_unknown to_session (err e) = err (
      value_error (
        "send_message target session_id `"
        <> (to_session <> ("` is not a known session: " <> error_text e))))

  unfoldable pub check_session : String → Exec World (Unit {0})
  check_session to_session w =
      if tool.has_session_store
      then (refuse_unknown to_session (get_session to_session w.sessions).0, w)
      else (ok tt, w)

  abbrev pub refuse_exited : Arguments → Option ℤ → Exec World (Unit {0})
  refuse_exited a none = pure tt
  refuse_exited a (some code) = raise (
      value_error (
        "send_message target `"
        <> (a.to_agent
            <> ("` (session_id="
                <> (a.to_session
                    <> (") has already exited (returncode="
                        <> (int_text code
                            <> "). Its final report, if any, is already in your inbox — do not send further messages to it; spawn a new sub-agent if more work is needed.")))))))

  abbrev pub refuse_buried : Arguments → Bool → Exec World (Unit {0})
  refuse_buried a buried = raise_if buried (
      "send_message target sub-agent `"
      <> (a.to_agent
          <> ("` (session_id="
              <> (a.to_session
                  <> ") has finished and exited. Its final report is in your inbox — do not send further messages to it; spawn a new sub-agent if more work is needed."))))

  abbrev pub ask_graveyard : String → ℕ → Exec World Bool
  ask_graveyard to_session clock w =
      let (buried, registry) = is_recently_exited to_session clock w.registry in
      (ok buried, record w { registry = registry })

  abbrev pub check_child : Arguments → ℕ → Option LiveSubagent → Exec World (Unit {0})
  check_child a clock (some l) = refuse_exited a (returncode l.session_id)
  check_child a clock none = ask_graveyard a.to_session clock >>= refuse_buried a

  unfoldable pub check_subagent : Arguments → ℕ → Exec World (Unit {0})
  check_subagent a clock w =
      if tool.has_subagent_registry
      then check_child a clock (Registry.get a.to_session w.registry) w
      else (ok tt, w)

  abbrev pub outgoing : Arguments → Outgoing
  outgoing a = record {
    from_session_id = session_id;
    from_agent_name = tool.from_agent_name;
    to_session_id = a.to_session;
    to_agent_name = a.to_agent;
    body = truncated a.body;
    expects_response = a.expects_response;
    correlation_id = none;
    in_reply_to = a.in_reply_to;
  }

  abbrev pub on_mailbox : {A : Type 0} → Exec Store A → Exec World A
  on_mailbox f w = let (r, mailbox) = f w.mailbox in (r, record w { mailbox = mailbox })

  abbrev pub is_own_inbox : Arguments → Bool
  is_own_inbox a = str_eq a.to_agent tool.from_agent_name && str_eq a.to_session session_id

  unfoldable pub send_message : Fields → Stamps → Exec World String
  send_message arguments t = do
    a ← read_arguments arguments
    raise_if (is_own_inbox a) "send_message cannot target the sender's own inbox."
    check_session a.to_session
    check_subagent a t.clock
    message ← on_mailbox (send (outgoing a) t.now t.message_id t.fresh)
    pure (receipt a message)
