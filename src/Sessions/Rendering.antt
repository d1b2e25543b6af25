-- ===== src/Sessions/Rendering.antt =====
-- src/feather/storage/session_store.py: the attachments of many messages at once, and the history as a
-- text. `dumps` is `json.dumps` of a text.
use feather_os.Prelude.{
  ℕ, suc, String, ◌<>◌, Bool, List, [], ◌∷◌, ◌++◌, map, if◌then◌else◌, str_eq, strip, any, select,
  update, has_key, fetch, order_by, join, int_text, pos, Option, none, some,
}
use feather_os.Sessions.Records.{
  MessageRole, user, assistant, tool, image, file, SessionMessage, Attachment, Db,
}
use feather_os.Sessions.Messages.{by_creation}
use feather_os.Sessions.Windows.{list_active_messages}

-- An entry of the dictionary `grouped`, whose entries stand in the order of insertion.
pub record Group : Type 0 where
  pub message_id : String
  pub attachments : List Attachment

abbrev pub group_key : Group → String
group_key g = g.message_id

abbrev pub grown : Attachment → Group → Group
grown a g = record g { attachments = g.attachments ++ a ∷ [] }

-- `grouped.setdefault(message_id, []).append(attachment)`
abbrev pub put_into : Attachment → List Group → List Group
put_into a groups =
    if any (has_key group_key a.message_id) groups
    then update (has_key group_key a.message_id) (grown a) groups
    else groups ++ record { message_id = a.message_id; attachments = a ∷ [] } ∷ []

abbrev pub group_rows : List Attachment → List Group → List Group
group_rows [] groups = groups
group_rows (a ∷ rows) groups = group_rows rows (put_into a groups)

-- `WHERE message_id IN (…)`
abbrev pub is_asked : List String → Attachment → Bool
is_asked message_ids a = any (str_eq a.message_id) message_ids

-- No ids find no rows.
unfoldable pub list_attachments_for_messages : List String → Db → List Group
list_attachments_for_messages message_ids db =
    group_rows (order_by by_creation (select (is_asked message_ids) db.attachments)) []

-- `grouped.get(message_id, [])`
abbrev pub rows_of : Option Group → List Attachment
rows_of none = []
rows_of (some g) = g.attachments

abbrev pub group_of : String → List Group → List Attachment
group_of message_id groups = rows_of (fetch group_key message_id groups)

abbrev pub role_value : MessageRole → String
role_value user = "user"
role_value assistant = "assistant"
role_value tool = "tool"

abbrev pub attachment_line : (String → String) → String → Attachment → String
attachment_line dumps label a =
    "  "
    <> (label
        <> (" name="
            <> (dumps a.original_name
                <> (" mime=" <> (dumps a.mime_type <> (" path=" <> dumps a.filepath))))))

-- Images and files are counted apart.
abbrev pub attachment_lines :
    (String → String) → (image_index file_index : ℕ) → List Attachment → List String
attachment_lines dumps i f [] = []
attachment_lines dumps i f (a ∷ rows) = elim a.kind [
  | image ↦
      attachment_line dumps ("[image #" <> (int_text (pos (suc i)) <> "]")) a
      ∷ attachment_lines dumps (suc i) f rows
  | file ↦
      attachment_line dumps ("[File #" <> (int_text (pos (suc f)) <> "]")) a
      ∷ attachment_lines dumps i (suc f) rows
]

unfoldable pub render_attachment_history_block : (String → String) → List Attachment → String
render_attachment_history_block dumps rows =
    join "\n" ("attachments:" ∷ attachment_lines dumps 0 0 rows)

abbrev pub with_block : (String → String) → String → List Attachment → String
with_block dumps content [] = content
with_block dumps content (a ∷ rows) =
    strip (join "\n" (content ∷ render_attachment_history_block dumps (a ∷ rows) ∷ []))

abbrev pub history_line : (String → String) → List Group → SessionMessage → String
history_line dumps groups m =
    let label = role_value m.role in
    (if m.is_compact then label <> "[compact]" else label)
    <> (": " <> with_block dumps m.content (group_of m.id groups))

unfoldable pub render_history_for_cache : (String → String) → String → Db → String
render_history_for_cache dumps session_id db =
    let messages = list_active_messages session_id db in
    let groups = list_attachments_for_messages (map (λ m. m.id) messages) db in
    join "\n" (map (history_line dumps groups) messages)
