-- ===== src/Sessions/Context.antt =====
-- src/feather/storage/session_store.py, `list_active_messages`: the context window of a session.
use feather_os.Prelude.{
  ◌≤◌, String, ◌≡◌, true, List, inl, inr, arith, select, In, In-select, select-In, IsOrder,
  IsSorted, asc-IsOrder, desc-IsOrder, desc, order_by-IsSorted, In-order_by, order_by-In, first_lem,
  Bool,
}
use feather_os.Sessions.Records.{SessionMessage, Db}
use feather_os.Sessions.Messages.{of_session}
use feather_os.Sessions.Windows.{
  by_sequence, in_order, is_summary, from_sequence, list_messages, get_latest_compact_message,
  list_active_messages,
}

-- No summary of the session has a greater number than the message.
abbrev pub IsCurrent : String → Db → SessionMessage → Type 0
IsCurrent session_id db m =
    (c : SessionMessage)
    → In c db.messages
    → is_summary session_id c ≡ true
    → c.sequence ≤ m.sequence

-- The messages of the session that no later summary covers, in order.
pub record IsContext (session_id : String) (db : Db) (window : List SessionMessage) : Type 0 where
  pub sorted : IsSorted by_sequence window
  pub sound :
      (m : SessionMessage)
      → In m window
      → In m db.messages × (of_session session_id m ≡ true) × IsCurrent session_id db m
  pub complete :
      (m : SessionMessage)
      → In m db.messages
      → of_session session_id m ≡ true
      → IsCurrent session_id db m
      → In m window

pub by_sequence-IsOrder : IsOrder by_sequence
by_sequence-IsOrder = asc-IsOrder (λ m. m.sequence)

module _ (p : SessionMessage → Bool) (db : Db) where
  in_order-IsSorted : IsSorted by_sequence (in_order p db)
  in_order-IsSorted = order_by-IsSorted by_sequence by_sequence-IsOrder (select p db.messages)

  In-in_order : (m : SessionMessage) → In m (in_order p db) → In m db.messages × (p m ≡ true)
  In-in_order m i = In-select p m db.messages (In-order_by by_sequence m (select p db.messages) i)

  in_order-In : (m : SessionMessage) → In m db.messages → p m ≡ true → In m (in_order p db)
  in_order-In m i h =
      order_by-In by_sequence m (select p db.messages) (select-In p m db.messages i h)

-- The context window of a session has, in the order of their numbers, exactly the messages of the
-- session than which no summary of the session has a greater number.
pub list_active_messages_lem :
    (session_id : String) (db : Db) → IsContext session_id db (list_active_messages session_id db)
unfolding list_active_messages get_latest_compact_message list_messages
list_active_messages_lem session_id db =
    elim (first_lem (desc by_sequence) (desc-IsOrder by_sequence-IsOrder) (is_summary session_id)
      db.messages) [
        | inl (missing, no_summary) ↦
            let p = of_session session_id in
            rw missing (record {
              sorted = in_order-IsSorted p db;
              sound = λ m i.
                  let (there, h) = In-in_order p db m i in (there, h, λ c j s. cc (no_summary c j));
              complete = λ m i h current. in_order-In p db m i h;
            })
        | inr (latest, found, there, summary, last) ↦
            let p = from_sequence session_id latest.sequence in
            rw found (record {
              sorted = in_order-IsSorted p db;
              sound = λ m i.
                  let (here, h) = In-in_order p db m i in
                  (here, ground (arith, h), λ c j s. ground (arith, h, last c j s));
              complete = λ m i h current.
                  in_order-In p db m i (ground (arith, h, current latest there summary));
            })
      ]
