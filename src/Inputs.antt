-- ===== src/Inputs.antt =====
-- src/feather/core/session/input_queue.py: the queue of the messages that the user types while a
-- run is busy. The dictionary `_queues` is a table of entries keyed by the session, in the order of
-- insertion. Every method holds the lock from its first to its last access, so it is one step.
pub mod Windows
pub mod Spec
pub mod Refinement
mod Examples
use feather_os.Prelude.{
  ℕ, suc, ◌+◌, String, Bool, true, false, not, Option, none, some, List, [], ◌∷◌, ◌++◌, leb, ℤ, pos,
  negsuc, if◌then◌else◌, strip, is_empty, length, tail, select, update, any, has_key, fetch, Result,
  ok, err, value_error,
}

pub record Entry : Type 0 where
  pub session_id : String
  pub waiting : List String

pub record UserInputQueue : Type 0 where
  pub max_per_session : ℕ
  pub queues : List Entry

abbrev pub entry_key : Entry → String
entry_key e = e.session_id

unfoldable pub init : ℤ → Result UserInputQueue
init (pos (suc n)) = ok (record { max_per_session = suc n; queues = [] })
init _ = err (value_error "max_per_session must be positive")

-- `deque()` for a session without an entry.
abbrev pub items_of : Option Entry → List String
items_of none = []
items_of (some e) = e.waiting

unfoldable pub setdefault : String → List Entry → List Entry
setdefault session entries =
    if any (has_key entry_key session) entries
    then entries
    else entries ++ record { session_id = session; waiting = [] } ∷ []

abbrev pub put_items : List String → Entry → Entry
put_items items e = record e { waiting = items }

abbrev pub replace : String → List String → UserInputQueue → UserInputQueue
replace session items q = record q {
  queues = update (has_key entry_key session) (put_items items) q.queues;
}

-- The oldest message is dropped from a full queue.
unfoldable pub push : ℕ → String → List String → List String
push cap text items = (if leb cap (length items) then tail items else items) ++ text ∷ []

unfoldable pub enqueue : String → String → UserInputQueue → Bool × UserInputQueue
enqueue session text q =
    if is_empty (strip text)
    then (false, q)
    else let entries = setdefault session q.queues in
      (
        true,
        replace session
            (push q.max_per_session (strip text) (items_of (fetch entry_key session entries)))
            (record q { queues = entries }),
      )

abbrev drain_items : String → List String → UserInputQueue → List String × UserInputQueue
drain_items session [] q = ([], q)
drain_items session (x ∷ items) q = (x ∷ items, replace session [] q)

unfoldable pub drain : String → UserInputQueue → List String × UserInputQueue
drain session q = drain_items session (items_of (fetch entry_key session q.queues)) q

unfoldable pub peek : String → UserInputQueue → List String
peek session q = items_of (fetch entry_key session q.queues)

unfoldable pub depth : String → UserInputQueue → ℕ
depth session q = length (items_of (fetch entry_key session q.queues))

unfoldable pub clear : String → UserInputQueue → ℕ × UserInputQueue
clear session q = (
  length (items_of (fetch entry_key session q.queues)),
  record q { queues = select (λ e. not (has_key entry_key session e)) q.queues },
)

-- The loop of `extend`: how many messages it added, and the queue after it.
abbrev pub push_all : ℕ → List String → List String → ℕ × List String
push_all cap [] items = (0, items)
push_all cap (text ∷ texts) items =
    let blank = is_empty (strip text) in
    let rest = push_all cap texts (if blank then items else push cap (strip text) items) in
    (if blank then rest.0 else suc rest.0, rest.1)

unfoldable pub extend : String → List String → UserInputQueue → ℕ × UserInputQueue
extend session texts q =
    let entries = setdefault session q.queues in
    let done = push_all q.max_per_session texts (items_of (fetch entry_key session entries)) in
    (done.0, replace session done.1 (record q { queues = entries }))
