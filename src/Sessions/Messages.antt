-- ===== src/Sessions/Messages.antt =====
-- src/feather/storage/session_store.py: the messages of a session and their attachments. The
-- connection enforces foreign keys.
use feather_os.Prelude.{
  ℕ, suc, max, String, ◌++◌, Bool, not, Option, List, [], ◌∷◌, if◌then◌else◌, str_eq, select, any,
  has_key, update, asc_text, then_by, order_by, Exec, pure, refuse_if, modify, ◌>>=◌, ◌>>◌,
}
use feather_os.Sessions.Records.{
  MessageRole, SessionMessage, Attachment, Db, session_key, message_key, attachment_key,
}
use feather_os.Sessions.State.{update_session_fields}

abbrev pub of_session : String → SessionMessage → Bool
of_session session_id m = str_eq m.session_id session_id

-- `COALESCE(MAX(sequence), 0)`
unfoldable pub last_sequence : String → List SessionMessage → ℕ
last_sequence session_id [] = 0
last_sequence session_id (m ∷ rows) =
    let rest = last_sequence session_id rows in
    if of_session session_id m then max m.sequence rest else rest

pub record NewMessage : Type 0 where
  pub session_id : String
  pub role : MessageRole
  pub content : String
  pub file_ref : Option String
  pub is_compact : Bool

abbrev pub numbered : NewMessage → (message_id now : String) → List SessionMessage → SessionMessage
numbered a message_id now rows = record {
  id = message_id;
  session_id = a.session_id;
  role = a.role;
  content = a.content;
  file_ref = a.file_ref;
  is_compact = a.is_compact;
  sequence = suc (last_sequence a.session_id rows);
  created_at = now;
}

-- One statement, in which the sequence is allocated.
unfoldable pub insert_message : NewMessage → (message_id now : String) → Exec Db SessionMessage
insert_message a message_id now = do
  refuse_if (λ db. any (has_key message_key message_id) db.messages)
  refuse_if (λ db. not (any (has_key session_key a.session_id) db.sessions))
  λ db.
      let m = numbered a message_id now db.messages in
      pure m (record db { messages = db.messages ++ m ∷ [] })

unfoldable pub add_message : NewMessage → (message_id now touched : String) → Exec Db SessionMessage
add_message a message_id now touched = do
  m ← insert_message a message_id now
  update_session_fields a.session_id (λ s. s) touched
  pure m

unfoldable pub update_message_content : (message_id content : String) → Exec Db Unit
update_message_content message_id content = modify (λ db. record db {
  messages =
      update (has_key message_key message_id) (λ m. record m { content = content }) db.messages;
})

unfoldable pub add_attachment : Attachment → Exec Db Attachment
add_attachment a = do
  refuse_if (λ db. any (has_key attachment_key a.id) db.attachments)
  refuse_if (λ db. not (any (has_key session_key a.session_id) db.sessions))
  refuse_if (λ db. not (any (has_key message_key a.message_id) db.messages))
  modify (λ db. record db { attachments = db.attachments ++ a ∷ [] })
  pure a

abbrev pub by_creation : Attachment → Attachment → Bool
by_creation = then_by (asc_text (λ a. a.created_at)) (asc_text (λ a. a.id))

unfoldable pub list_message_attachments : String → Db → List Attachment
list_message_attachments message_id db =
    order_by by_creation (select (λ a. str_eq a.message_id message_id) db.attachments)

unfoldable pub list_session_attachments : String → Db → List Attachment
list_session_attachments session_id db =
    order_by by_creation (select (λ a. str_eq a.session_id session_id) db.attachments)

unfoldable pub delete_message_and_attachments : String → Exec Db (List Attachment)
delete_message_and_attachments message_id db =
    pure (list_message_attachments message_id db) (record db {
      messages = select (λ m. not (has_key message_key message_id m)) db.messages;
      attachments = select (λ a. not (str_eq a.message_id message_id)) db.attachments;
    })
