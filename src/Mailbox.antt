-- ===== src/Mailbox.antt =====
-- src/feather/storage/agent_message_store.py: the mailbox of inter-agent messages. The table
-- `agent_messages` is a list of rows in the order of insertion. The clock and `uuid4` are arguments:
-- the texts that they gave to this call. Each call runs in one transaction of SQLite, so it is one
-- step on the table.
pub mod Counting
pub mod Keys
pub mod History
pub mod Bounds
pub mod Lifecycle
pub mod Delivery
pub mod Replies
mod Examples
use feather_os.Prelude.{
  ℕ, suc, ◌<◌, ◌≡◌, String, Bool, true, false, not, ◌&&◌, ◌||◌, Option, none, some, List, [], ◌∷◌,
  ◌++◌, ltb, max, if◌then◌else◌, str_eq, strip, is_empty, length, take, head?, select, count,
  update, any, In, asc_text, then_by, order_by, Result, ok, err, value_error, integrity_error,
}

pub data Status : Type 0 where
  pending delivered responded expired : Status

pub record Message : Type 0 where
  pub id : String
  pub from_session_id : String
  pub from_agent_name : String
  pub to_session_id : String
  pub to_agent_name : String
  pub body : String
  pub correlation_id : Option String
  pub in_reply_to : Option String
  pub expects_response : Bool
  pub status : Status
  pub created_at : String
  pub delivered_at : Option String
  pub responded_at : Option String

pub record Store : Type 0 where
  pub inbox_cap : ℕ
  pub messages : List Message

-- The keyword arguments of `send`.
pub record Outgoing : Type 0 where
  pub from_session_id : String
  pub from_agent_name : String
  pub to_session_id : String
  pub to_agent_name : String
  pub body : String
  pub expects_response : Bool
  pub correlation_id : Option String
  pub in_reply_to : Option String

abbrev pub is_pending : Status → Bool
is_pending pending = true
is_pending _ = false

abbrev pub is_open : Status → Bool
is_open pending = true
is_open delivered = true
is_open _ = false

-- SQL's `column = ?` on a column that may be NULL.
abbrev pub opt_eq : Option String → String → Bool
opt_eq none t = false
opt_eq (some s) t = str_eq s t

-- WHERE to_session_id = ? AND to_agent_name = ? AND status = 'pending'
abbrev pub addressed : String → String → Message → Bool
addressed session agent m =
    str_eq m.to_session_id session && (str_eq m.to_agent_name agent && is_pending m.status)

-- ORDER BY created_at ASC, id ASC
abbrev pub oldest_first : Message → Message → Bool
oldest_first = then_by (asc_text (λ (m : Message). m.created_at)) (asc_text (λ (m : Message). m.id))

abbrev pub has_id : String → Message → Bool
has_id i m = str_eq m.id i

unfoldable pub pending_count : String → String → Store → ℕ
pending_count session agent s = count (addressed session agent) s.messages

abbrev expire : Message → Message
expire m = record m { status = expired }

abbrev expire_oldest : List Message → List Message → List Message
expire_oldest [] rows = rows
expire_oldest (oldest ∷ _) rows = update (has_id oldest.id) expire rows

unfoldable pub enforce_inbox_cap : ℕ → String → String → List Message → List Message
enforce_inbox_cap inbox_cap session agent rows =
    if ltb (count (addressed session agent) rows) inbox_cap
    then rows
    else expire_oldest (order_by oldest_first (select (addressed session agent) rows)) rows

-- The rows that a reply to `correlation` answers.
abbrev pub awaits : String → Message → Bool
awaits correlation m =
    opt_eq m.correlation_id correlation && (is_open m.status && m.expects_response)

abbrev pub respond : String → Message → Message
respond now m = record m { status = responded; responded_at = some now }

-- `if in_reply_to:` is false for None and for the empty text.
abbrev pub flip_question : Option String → String → List Message → List Message
flip_question none now rows = rows
flip_question (some c) now rows = if is_empty c then rows else update (awaits c) (respond now) rows

abbrev pub choose_correlation : Bool → Option String → String → Option String
choose_correlation true none fresh = some fresh
choose_correlation _ given fresh = given

abbrev pub new_message : Outgoing → String → String → String → Message
new_message o now message_id fresh = record {
  id = message_id;
  from_session_id = o.from_session_id;
  from_agent_name = o.from_agent_name;
  to_session_id = o.to_session_id;
  to_agent_name = o.to_agent_name;
  body = strip o.body;
  correlation_id = choose_correlation o.expects_response o.correlation_id fresh;
  in_reply_to = o.in_reply_to;
  expects_response = o.expects_response;
  status = pending;
  created_at = now;
  delivered_at = none;
  responded_at = none;
}

-- The transaction of `send`. The primary key refuses a second row with the same id, and the
-- rollback then restores the table.
unfoldable pub send_transaction :
    Outgoing → (now message_id fresh : String) → Store → Result Message × Store
send_transaction o now message_id fresh s =
    let m = new_message o now message_id fresh in
    let room = enforce_inbox_cap s.inbox_cap o.to_session_id o.to_agent_name s.messages in
    if any (has_id message_id) room
    then (err integrity_error, s)
    else (ok m, record s { messages = flip_question o.in_reply_to now (room ++ m ∷ []) })

unfoldable pub send : Outgoing → (now message_id fresh : String) → Store → Result Message × Store
send o now message_id fresh s =
    if is_empty (strip o.body)
    then (err (value_error "agent_message body must not be empty"), s)
    else if is_empty o.from_session_id || is_empty o.from_agent_name
    then (err (value_error "from_session_id / from_agent_name must be non-empty"), s)
    else if is_empty o.to_session_id || is_empty o.to_agent_name
    then (err (value_error "to_session_id / to_agent_name must be non-empty"), s)
    else send_transaction o now message_id fresh s

-- `limit` is an `int` that may be 0 or less; either then counts as 1.
abbrev pub effective_limit : ℕ → Option ℕ → ℕ
effective_limit inbox_cap none = inbox_cap
effective_limit inbox_cap (some n) = max 1 n

unfoldable pub inbox : String → String → Option ℕ → Store → List Message
inbox session agent limit s =
    take (effective_limit s.inbox_cap limit)
      (order_by oldest_first (select (addressed session agent) s.messages))

abbrev pub deliver : String → Message → Message
deliver now m = record m { status = delivered; delivered_at = some now }

abbrev pub pending_among : List String → Message → Bool
pending_among ids m = any (λ i. str_eq m.id i) ids && is_pending m.status

-- Returns how many ids it was given, the empty ones left out.
unfoldable pub mark_delivered : List String → String → Store → ℕ × Store
mark_delivered message_ids now s =
    let ids = select (λ i. not (is_empty i)) message_ids in
    (length ids, record s { messages = update (pending_among ids) (deliver now) s.messages })

unfoldable pub get_by_correlation : String → Store → List Message
get_by_correlation correlation s =
    order_by oldest_first (select (λ m. opt_eq m.correlation_id correlation) s.messages)

-- WHERE … AND in_reply_to = ?
abbrev pub replies_to : String → String → String → Message → Bool
replies_to session agent correlation m =
    addressed session agent m && opt_eq m.in_reply_to correlation

abbrev claim_first : String → List Message → Store → Option Message × Store
claim_first now [] s = (none, s)
claim_first now (m ∷ _) s = (
  some (deliver now m),
  record s { messages = update (pending_among (m.id ∷ [])) (deliver now) s.messages },
)

unfoldable pub claim_reply : String → String → String → String → Store → Option Message × Store
claim_reply session agent correlation now s =
    claim_first now
      (take 1 (order_by oldest_first (select (replies_to session agent correlation) s.messages))) s
