-- ===== src/Sessions/Windows.antt =====
-- src/feather/storage/session_store.py: the queries for messages.
use feather_os.Prelude.{
  ℕ, String, Bool, not, ◌&&◌, Option, none, some, List, [], ◌∷◌, ltb, leb, str_eq, head?, take,
  select, asc, desc, order_by,
}
use feather_os.Sessions.Records.{SessionMessage, Db}
use feather_os.Sessions.Messages.{of_session}

abbrev pub by_sequence : SessionMessage → SessionMessage → Bool
by_sequence = asc (λ m. m.sequence)

-- `SELECT * FROM messages WHERE … ORDER BY sequence ASC`
abbrev pub in_order : (SessionMessage → Bool) → Db → List SessionMessage
in_order p db = order_by by_sequence (select p db.messages)

unfoldable pub list_messages : String → Db → List SessionMessage
list_messages session_id db = in_order (of_session session_id) db

abbrev pub is_summary : String → SessionMessage → Bool
is_summary session_id m = of_session session_id m && m.is_compact

unfoldable pub get_latest_compact_message : String → Db → Option SessionMessage
get_latest_compact_message session_id db =
    head? (order_by (desc by_sequence) (select (is_summary session_id) db.messages))

abbrev pub from_sequence : String → ℕ → SessionMessage → Bool
from_sequence session_id n m = of_session session_id m && leb n m.sequence

abbrev pub active_from : String → Option SessionMessage → Db → List SessionMessage
active_from session_id none db = list_messages session_id db
active_from session_id (some latest) db = in_order (from_sequence session_id latest.sequence) db

unfoldable pub list_active_messages : String → Db → List SessionMessage
list_active_messages session_id db =
    active_from session_id (get_latest_compact_message session_id db) db

abbrev pub is_turn : String → SessionMessage → Bool
is_turn session_id m = of_session session_id m && not m.is_compact

abbrev pub sequence_of : Option SessionMessage → ℕ
sequence_of none = 0
sequence_of (some m) = m.sequence

-- An anchor that is none or not found counts from the start.
abbrev pub anchor_sequence : String → Option String → Db → ℕ
anchor_sequence session_id none db = 0
anchor_sequence session_id (some message_id) db =
    sequence_of
      (head? (select (λ m. of_session session_id m && str_eq m.id message_id) db.messages))

unfoldable pub get_non_compact_after :
    String → (after_message_id : Option String) → Db → List SessionMessage
get_non_compact_after session_id after_message_id db =
    let n = anchor_sequence session_id after_message_id db in
    in_order (λ m. is_turn session_id m && ltb n m.sequence) db

-- `reversed(rows)`
unfoldable pub reversed : {A : Type 0} → List A → List A → List A
reversed [] done = done
reversed (x ∷ xs) done = reversed xs (x ∷ done)

-- A negative limit is one of 0.
unfoldable pub get_recent_non_compact : String → (limit : ℕ) → Db → List SessionMessage
get_recent_non_compact session_id limit db =
    reversed (take limit (order_by (desc by_sequence) (select (is_turn session_id) db.messages))) []
