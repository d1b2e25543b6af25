-- ===== src/Messaging/Router.antt =====
-- src/feather/messaging/router.py. A handler runs from one await to the next without a break, so
-- between two of its steps any other handler may run; `Pc` says which await comes next. What the store,
-- the agent and the coordinator answer is in `Draws`. `is_session_busy` is assumed to answer without
-- suspending, as the callable of src/feather/runtime/root.py does, so the test of a session and its
-- addition to the active ones are one step.
use feather_os.Prelude.{
  String, ◌<>◌, Bool, not, ◌||◌, Option, none, some, List, [], ◌∷◌, ◌++◌, if◌then◌else◌, str_eq,
  strip, is_empty, any, select, ◌≡◌,
}
use feather_os.Inputs.{UserInputQueue, enqueue}
use feather_os.Messaging.Store.{
  Platform, platform_value, ChatMapping, Db, get_chat_mapping, upsert_chat_mapping, claim_inbound,
  release_inbound,
}

-- The fields that the router reads.
pub record IncomingMessage : Type 0 where
  pub platform : Platform
  pub chat_id : String
  pub sender_display_name : String
  pub text : String
  pub native_message_id : String
  pub reply_context : Option String

pub record OutgoingMessage : Type 0 where
  pub platform : Platform
  pub chat_id : String
  pub text : String
  pub reply_context : Option String

pub record AgentRunResult : Type 0 where
  pub awaiting_user : Bool
  pub assistant_text : String
  pub question : Option String

pub data Pc : Type 0 where
  claiming looking_up creating : Pc
  storing renaming routing queueing running : (session_id : String) → Pc
  replying : AgentRunResult → Pc
  failing ignored dropped handled released raised : Pc

pub record Handler : Type 0 where
  pub message : IncomingMessage
  pub pc : Pc

pub record Shared : Type 0 where
  pub db : Db
  pub active_sessions : List String
  pub input_queue : UserInputQueue
  pub adapter_senders : List Platform
  pub sent : List OutgoingMessage

pub record Draws : Type 0 where
  pub now : String
  pub new_session : String
  pub is_session_busy : Bool
  pub result : AgentRunResult
  pub send_fails : Bool

-- The question counts where it is neither None nor empty.
abbrev pub with_question : Option String → String → String
with_question none text = text
with_question (some question) text =
    if is_empty question
    then text
    else if is_empty text
    then strip question
    else text <> "\n\n" <> strip question

unfoldable pub select_reply_body : AgentRunResult → String
select_reply_body r =
    let text = strip r.assistant_text in
    if r.awaiting_user then with_question r.question text else text

abbrev pub has_sender : Platform → List Platform → Bool
has_sender platform senders = any (λ p. str_eq (platform_value p) (platform_value platform)) senders

-- A send that fails is logged and swallowed.
abbrev pub dispatch_reply : IncomingMessage → AgentRunResult → Draws → Shared → Shared
dispatch_reply m result d s =
    let body = select_reply_body result in
    if not (has_sender m.platform s.adapter_senders) || is_empty (strip body) || d.send_fails
    then s
    else record s {
      sent =
          s.sent
          ++ record {
            platform = m.platform;
            chat_id = m.chat_id;
            text = body;
            reply_context = m.reply_context;
          }
            ∷ [];
    }

abbrev pub on_db : {A : Type 0} → (Db → A × Db) → Shared → A × Shared
on_db f s = let (a, db) = f s.db in (a, record s { db = db })

abbrev pub is_running_session : String → List String → Bool
is_running_session session_id active = any (λ i. str_eq i session_id) active

abbrev pub leave_session : String → Shared → Shared
leave_session session_id s = record s {
  active_sessions = select (λ i. not (str_eq i session_id)) s.active_sessions;
}

-- `if not message.text or not message.text.strip(): return`
abbrev pub start : IncomingMessage → Pc
start m = if is_empty (strip m.text) then ignored else claiming

abbrev pub after_claim : Bool → Pc
after_claim claimed = if claimed then looking_up else dropped

abbrev pub after_lookup : IncomingMessage → Option ChatMapping → Pc
after_lookup m none = creating
after_lookup m (some c) =
    if str_eq c.display_name m.sender_display_name
    then routing c.session_id
    else renaming c.session_id

-- The record that comes back is not looked at.
abbrev pub store_chat : IncomingMessage → String → Draws → Shared → Shared
store_chat m session_id d s =
    (on_db (upsert_chat_mapping m.platform m.chat_id session_id m.sender_display_name d.now) s).1

abbrev pub route : String → Draws → Shared → Pc × Shared
route session_id d s =
    if is_running_session session_id s.active_sessions || d.is_session_busy
    then (queueing session_id, s)
    else (running session_id, record s { active_sessions = session_id ∷ s.active_sessions })

-- One step of a handler, where what it awaits returns.
unfoldable pub advance : Draws → IncomingMessage → Pc → Shared → Pc × Shared
advance d m claiming s =
    let (claimed, t) = on_db (claim_inbound m.platform m.native_message_id d.now) s in
    (after_claim claimed, t)
advance d m looking_up s = (after_lookup m (get_chat_mapping m.platform m.chat_id s.db), s)
advance d m creating s = (storing d.new_session, s)
advance d m (storing session_id) s = (routing session_id, store_chat m session_id d s)
advance d m (renaming session_id) s = (routing session_id, store_chat m session_id d s)
advance d m (routing session_id) s = route session_id d s
advance d m (queueing session_id) s =
    (handled, record s { input_queue = (enqueue session_id m.text s.input_queue).1 })
advance d m (running session_id) s = (replying d.result, leave_session session_id s)
advance d m (replying result) s = (handled, dispatch_reply m result d s)
advance d m failing s =
    (released, record s { db = release_inbound m.platform m.native_message_id s.db })
advance d m pc s = (pc, s)

-- One step where what it awaits raises. The claim stands before the `try` and the release in its
-- handler, so their errors are the caller's; a send is in a `try` of its own; the finished handlers
-- await nothing.
unfoldable pub abort : Pc → Shared → Pc × Shared
abort claiming s = (raised, s)
abort failing s = (raised, s)
abort (running session_id) s = (failing, leave_session session_id s)
abort looking_up s = (failing, s)
abort creating s = (failing, s)
abort (storing session_id) s = (failing, s)
abort (renaming session_id) s = (failing, s)
abort (routing session_id) s = (failing, s)
abort (queueing session_id) s = (failing, s)
abort pc s = (pc, s)

pub record World : Type 0 where
  pub shared : Shared
  pub handlers : List Handler

abbrev pub with_step : List Handler → List Handler → IncomingMessage → Pc × Shared → World
with_step pre post m (pc, s) = record {
  shared = s;
  handlers = pre ++ record { message = m; pc = pc } ∷ post;
}

-- Any message may come, redelivered or not, and any handler may take its next step.
pub data Step (w : World) : World → Type 0 where
  arrives :
      (m : IncomingMessage)
      → Step w (record w { handlers = w.handlers ++ record { message = m; pc = start m } ∷ [] })
  advances :
      (pre post : List Handler) (m : IncomingMessage) (pc : Pc) (d : Draws)
      → w.handlers ≡ pre ++ record { message = m; pc = pc } ∷ post
      → Step w (with_step pre post m (advance d m pc w.shared))
  aborts :
      (pre post : List Handler) (m : IncomingMessage) (pc : Pc)
      → w.handlers ≡ pre ++ record { message = m; pc = pc } ∷ post
      → Step w (with_step pre post m (abort pc w.shared))

pub data Reach (w : World) : World → Type 0 where
  here : Reach w w
  next : {u v : World} → Reach w u → Step u v → Reach w v
