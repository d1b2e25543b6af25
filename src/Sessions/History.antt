-- ===== src/Sessions/History.antt =====
-- src/feather/storage/session_store.py: any sequence of its operations.
use feather_os.Prelude.{String, Option, List}
use feather_os.Ipc.Json.{Fields}
use feather_os.Tasks.Work.{Change}
use feather_os.Sessions.Records.{SessionStatus, Attachment, Db}
use feather_os.Sessions.State.{
  create_session, append_loaded_skill, append_active_mcp_server, update_response_state, no_values,
  mark_restart_requested, clear_restart_request,
}
use feather_os.Sessions.Messages.{
  NewMessage, add_message, update_message_content, add_attachment, delete_message_and_attachments,
}
use feather_os.Sessions.Sequences.{
  IsNumbered, StaysNumbered, create_session-StaysNumbered, append_loaded_skill-StaysNumbered,
  append_active_mcp_server-StaysNumbered, add_attachment-StaysNumbered,
  update_message_content-StaysNumbered, delete-StaysNumbered, add_message-StaysNumbered,
  update_session_fields-StaysNumbered,
}
use feather_os.Prelude.{Bool-cases, inl, inr, Keeps}

pub data Step (db : Db) : Db → Type 0 where
  session_created :
      (agent_name : String) (session_id : Option String) (fresh now : String)
      → Step db (create_session agent_name session_id fresh now db).1
  message_added :
      (a : NewMessage) (message_id now touched : String)
      → Step db (add_message a message_id now touched db).1
  content_updated :
      (message_id content : String) → Step db (update_message_content message_id content db).1
  attachment_added : (a : Attachment) → Step db (add_attachment a db).1
  message_deleted : (message_id : String) → Step db (delete_message_and_attachments message_id db).1
  skill_loaded :
      (session_id skill_name now : String)
      → Step db (append_loaded_skill session_id skill_name now db).1
  server_activated :
      (session_id server_label now : String)
      → Step db (append_active_mcp_server session_id server_label now db).1
  response_updated :
      (session_id : String) (last_response_id : Change (Option String))
      (pending_inputs : Change (List Fields)) (status : Option SessionStatus) (now : String)
      → Step db (update_response_state session_id last_response_id pending_inputs status now db).1
  restart_requested :
      (session_id reason requested_at now : String)
      → Step db (mark_restart_requested session_id reason requested_at now db).1
  restart_cleared : (session_id now : String) → Step db (clear_restart_request session_id now db).1

pub data Reach (db : Db) : Db → Type 0 where
  here : Reach db db
  next : {b c : Db} → Reach db b → Step b c → Reach db c

update_response_state-StaysNumbered :
    (session_id : String) (last_response_id : Change (Option String))
    (pending_inputs : Change (List Fields)) (status : Option SessionStatus) (now : String)
    → Keeps StaysNumbered
        (update_response_state session_id last_response_id pending_inputs status now)
unfolding update_response_state
update_response_state-StaysNumbered session_id last_response_id pending_inputs status now =
    elim (Bool-cases (no_values last_response_id pending_inputs status)) [
      | inl t ↦ rw t (record { at = λ db. record { stays = λ v. v } })
      | inr f ↦ rw f (update_session_fields-StaysNumbered session_id _ now)
    ]

mark_restart_requested-StaysNumbered :
    (session_id reason requested_at now : String)
    → Keeps StaysNumbered (mark_restart_requested session_id reason requested_at now)
unfolding mark_restart_requested
mark_restart_requested-StaysNumbered session_id reason requested_at now =
    update_session_fields-StaysNumbered session_id _ now

clear_restart_request-StaysNumbered :
    (session_id now : String) → Keeps StaysNumbered (clear_restart_request session_id now)
unfolding clear_restart_request
clear_restart_request-StaysNumbered session_id now =
    update_session_fields-StaysNumbered session_id _ now

Step-IsNumbered : {a b : Db} → Step a b → IsNumbered a.messages → IsNumbered b.messages
Step-IsNumbered {a} (session_created n s f now) =
    ((create_session-StaysNumbered n s f now).at a).stays
Step-IsNumbered {a} (message_added m i now t) = ((add_message-StaysNumbered m i now t).at a).stays
Step-IsNumbered {a} (content_updated i c) = ((update_message_content-StaysNumbered i c).at a).stays
Step-IsNumbered {a} (attachment_added x) = ((add_attachment-StaysNumbered x).at a).stays
Step-IsNumbered {a} (message_deleted i) = ((delete-StaysNumbered i).at a).stays
Step-IsNumbered {a} (skill_loaded s n now) =
    ((append_loaded_skill-StaysNumbered s n now).at a).stays
Step-IsNumbered {a} (server_activated s l now) =
    ((append_active_mcp_server-StaysNumbered s l now).at a).stays
Step-IsNumbered {a} (response_updated s l p u now) =
    ((update_response_state-StaysNumbered s l p u now).at a).stays
Step-IsNumbered {a} (restart_requested s r t now) =
    ((mark_restart_requested-StaysNumbered s r t now).at a).stays
Step-IsNumbered {a} (restart_cleared s now) =
    ((clear_restart_request-StaysNumbered s now).at a).stays

-- After any calls on a store in which each message id stands once and the numbers of each session
-- rise from 1 on in the order of the rows, failed calls and deletions included, that is so again.
pub Reach-IsNumbered : {a b : Db} → IsNumbered a.messages → Reach a b → IsNumbered b.messages
Reach-IsNumbered v here = v
Reach-IsNumbered v (next r st) = Step-IsNumbered st (Reach-IsNumbered v r)
