-- ===== src/Sessions/Sequences.antt =====
-- src/feather/storage/session_store.py: the numbers of the messages, under every operation.
use feather_os.Prelude.{
  ◌≤◌, String, ◌≡◌, refl, Bool, true, false, not, ◌||◌, Option, List, [], ◌∷◌, ◌++◌, inl, inr,
  Bool-cases, arith, ltb, str_eq, update, any, has_key, All, All-map, All-append, IsSorted,
  IsSorted-snoc, IsKeyed, IsKeyed-snoc, IsKeyed-update, Sub-select, Sub-All, Sub-IsSorted,
  Sub-IsKeyed, modify, IsPreorder, Keeps, Keeps-bind, Keeps-pure, Keeps-require, Keeps-refuse_if,
  Keeps-modify,
}
use feather_os.Sessions.Records.{
  SessionRecord, SessionMessage, Attachment, Db, session_key, message_key,
}
use feather_os.Sessions.State.{
  get_session, create_session, update_session_fields, append_loaded_skill, append_active_mcp_server,
}
use feather_os.Sessions.Messages.{
  of_session, last_sequence, NewMessage, numbered, insert_message, add_message,
  update_message_content, add_attachment, delete_message_and_attachments,
}

-- Of two messages of one session the later row has the greater number.
abbrev pub precedes : SessionMessage → SessionMessage → Bool
precedes m n = not (str_eq m.session_id n.session_id) || ltb m.sequence n.sequence

-- An id stands once, and the numbers of a session rise from 1 on.
pub record IsNumbered (rows : List SessionMessage) : Type 0 where
  pub ids : IsKeyed message_key rows
  pub rising : IsSorted precedes rows
  pub positive : All (λ m. 1 ≤ m.sequence) rows

-- No number of the session is greater than the last.
pub last_sequence-All :
    (session_id : String) (rows : List SessionMessage)
    → All (λ m. of_session session_id m ≡ true → m.sequence ≤ last_sequence session_id rows) rows
unfolding last_sequence
last_sequence-All session_id [] = tt
last_sequence-All session_id (m ∷ rows) = (
  λ h. ground arith,
  All-map _ _ rows (λ n le h. ground (arith, le h)) (last_sequence-All session_id rows),
)

pub numbered-IsNumbered :
    (a : NewMessage) (message_id now : String) (rows : List SessionMessage)
    → any (has_key message_key message_id) rows ≡ false
    → IsNumbered rows
    → IsNumbered (rows ++ numbered a message_id now rows ∷ [])
numbered-IsNumbered a message_id now rows fresh v =
    let m = numbered a message_id now rows in
    record {
      ids = IsKeyed-snoc message_key m rows v.ids fresh;
      rising =
          IsSorted-snoc precedes rows m v.rising
            (All-map _ _ rows (λ n le. ground (arith, le)) (last_sequence-All a.session_id rows));
      positive = All-append _ rows (m ∷ []) v.positive (omega arith, tt);
    }

edited-All :
    (P : SessionMessage → Type 0) (message_id content : String) (rows : List SessionMessage)
    → ((m : SessionMessage) → P m → P (record m { content = content }))
    → All P rows
    → All P (update (has_key message_key message_id) (λ m. record m { content = content }) rows)
edited-All P message_id content [] f a = tt
edited-All P message_id content (m ∷ rows) f a =
    elim (Bool-cases (has_key message_key message_id m)) [
      | inl t ↦ rw t (f m a.0, edited-All P message_id content rows f a.1)
      | inr t ↦ rw t (a.0, edited-All P message_id content rows f a.1)
    ]

edited-IsSorted :
    (message_id content : String) (rows : List SessionMessage)
    → IsSorted precedes rows
    → IsSorted precedes
        (update (has_key message_key message_id) (λ m. record m { content = content }) rows)
edited-IsSorted message_id content [] s = tt
edited-IsSorted message_id content (m ∷ rows) s =
    let later = edited-All (λ n. precedes m n ≡ true) message_id content rows (λ n h. h) s.0 in
    elim (Bool-cases (has_key message_key message_id m)) [
      | inl t ↦ rw t (later, edited-IsSorted message_id content rows s.1)
      | inr t ↦ rw t (later, edited-IsSorted message_id content rows s.1)
    ]

pub record StaysNumbered (before after : Db) : Type 0 where
  pub stays : IsNumbered before.messages → IsNumbered after.messages

StaysNumbered-IsPreorder : IsPreorder StaysNumbered
StaysNumbered-IsPreorder = record {
  refl = λ db. record { stays = λ v. v };
  trans = λ a b c p q. record { stays = λ v. q.stays (p.stays v) };
}

get_session-StaysNumbered : (session_id : String) → Keeps StaysNumbered (get_session session_id)
unfolding get_session
get_session-StaysNumbered session_id = record {
  at = λ db. (Keeps-require StaysNumbered-IsPreorder _ _).at db;
}

pub update_session_fields-StaysNumbered :
    (session_id : String) (f : SessionRecord → SessionRecord) (now : String)
    → Keeps StaysNumbered (update_session_fields session_id f now)
unfolding update_session_fields
update_session_fields-StaysNumbered session_id f now =
    Keeps-modify _ (λ db. record { stays = λ v. v })

append_session-StaysNumbered :
    (s : SessionRecord)
    → Keeps StaysNumbered (modify (λ (db : Db). record db { sessions = db.sessions ++ s ∷ [] }))
append_session-StaysNumbered s = Keeps-modify _ (λ db. record { stays = λ v. v })

append_attachment-StaysNumbered :
    (a : Attachment)
    → Keeps StaysNumbered
        (modify (λ (db : Db). record db { attachments = db.attachments ++ a ∷ [] }))
append_attachment-StaysNumbered a = Keeps-modify _ (λ db. record { stays = λ v. v })

pub create_session-StaysNumbered :
    (agent_name : String) (session_id : Option String) (fresh now : String)
    → Keeps StaysNumbered (create_session agent_name session_id fresh now)
unfolding create_session
create_session-StaysNumbered agent_name session_id fresh now = search (
  StaysNumbered-IsPreorder, Keeps-bind, Keeps-refuse_if, append_session-StaysNumbered,
  get_session-StaysNumbered,
)

pub append_loaded_skill-StaysNumbered :
    (session_id skill_name now : String)
    → Keeps StaysNumbered (append_loaded_skill session_id skill_name now)
unfolding append_loaded_skill
append_loaded_skill-StaysNumbered session_id skill_name now = search (
  StaysNumbered-IsPreorder, Keeps-bind, get_session-StaysNumbered,
  update_session_fields-StaysNumbered,
)

pub append_active_mcp_server-StaysNumbered :
    (session_id server_label now : String)
    → Keeps StaysNumbered (append_active_mcp_server session_id server_label now)
unfolding append_active_mcp_server
append_active_mcp_server-StaysNumbered session_id server_label now = search (
  StaysNumbered-IsPreorder, Keeps-bind, get_session-StaysNumbered,
  update_session_fields-StaysNumbered,
)

pub add_attachment-StaysNumbered : (a : Attachment) → Keeps StaysNumbered (add_attachment a)
unfolding add_attachment
add_attachment-StaysNumbered a = search (
  StaysNumbered-IsPreorder, Keeps-bind, Keeps-pure, Keeps-refuse_if,
  append_attachment-StaysNumbered,
)

pub update_message_content-StaysNumbered :
    (message_id content : String) → Keeps StaysNumbered (update_message_content message_id content)
unfolding update_message_content
update_message_content-StaysNumbered message_id content = Keeps-modify _ (λ db. record {
  stays = λ v. record {
    ids = IsKeyed-update message_key _ _ (λ m. refl) db.messages v.ids;
    rising = edited-IsSorted message_id content db.messages v.rising;
    positive = edited-All _ message_id content db.messages (λ m h. h) v.positive;
  };
})

pub delete-StaysNumbered :
    (message_id : String) → Keeps StaysNumbered (delete_message_and_attachments message_id)
unfolding delete_message_and_attachments
delete-StaysNumbered message_id = record {
  at = λ db. record {
    stays = λ v.
        let s = Sub-select (λ m. not (has_key message_key message_id m)) db.messages in
        record {
          ids = Sub-IsKeyed message_key s v.ids;
          rising = Sub-IsSorted precedes s v.rising;
          positive = Sub-All _ s v.positive;
        };
  };
}

insert_message-StaysNumbered :
    (a : NewMessage) (message_id now : String)
    → Keeps StaysNumbered (insert_message a message_id now)
unfolding insert_message
insert_message-StaysNumbered a message_id now = record {
  at = λ db. elim (Bool-cases (any (has_key message_key message_id) db.messages)) [
    | inl taken ↦ rw taken (record { stays = λ v. v })
    | inr free ↦ elim (Bool-cases (any (has_key session_key a.session_id) db.sessions)) [
      | inl known ↦
          rw (free, known)
            (record { stays = λ v. numbered-IsNumbered a message_id now db.messages free v })
      | inr unknown ↦ rw (free, unknown) (record { stays = λ v. v })
    ]
  ];
}

pub add_message-StaysNumbered :
    (a : NewMessage) (message_id now touched : String)
    → Keeps StaysNumbered (add_message a message_id now touched)
unfolding add_message
add_message-StaysNumbered a message_id now touched = search (
  StaysNumbered-IsPreorder, Keeps-bind, Keeps-pure, insert_message-StaysNumbered,
  update_session_fields-StaysNumbered,
)
