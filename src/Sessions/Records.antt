-- ===== src/Sessions/Records.antt =====
-- The records of src/feather/models/records.py that the session store keeps, and its tables. The
-- columns `loaded_skills`, `active_mcp_servers` and `pending_inputs` hold `json.dumps` of lists,
-- which `json.loads` reads back: the model keeps the lists.
use feather_os.Prelude.{ℕ, String, Bool, Option, List}
use feather_os.Ipc.Json.{Fields}

pub data MessageRole : Type 0 where
  user assistant tool : MessageRole

pub data AttachmentKind : Type 0 where
  image file : AttachmentKind

pub data SessionStatus : Type 0 where
  active awaiting_user : SessionStatus

pub record SessionRecord : Type 0 where
  pub id : String
  pub agent_name : String
  pub status : SessionStatus
  pub last_response_id : Option String
  pub loaded_skills : List String
  pub active_mcp_servers : List String
  pub pending_inputs : List Fields
  pub created_at : String
  pub updated_at : String
  pub restart_requested_at : Option String
  pub restart_reason : Option String

pub record SessionMessage : Type 0 where
  pub id : String
  pub session_id : String
  pub role : MessageRole
  pub content : String
  pub file_ref : Option String
  pub is_compact : Bool
  pub sequence : ℕ
  pub created_at : String

pub record Attachment : Type 0 where
  pub id : String
  pub session_id : String
  pub message_id : String
  pub kind : AttachmentKind
  pub mime_type : String
  pub original_name : String
  pub filepath : String
  pub size_bytes : ℕ
  pub created_at : String

pub record Db : Type 0 where
  pub sessions : List SessionRecord
  pub messages : List SessionMessage
  pub attachments : List Attachment

abbrev pub session_key : SessionRecord → String
session_key s = s.id

abbrev pub message_key : SessionMessage → String
message_key m = m.id

abbrev pub attachment_key : Attachment → String
attachment_key a = a.id
