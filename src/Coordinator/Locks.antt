-- ===== src/Coordinator/Locks.antt =====
-- src/feather/core/session/coordinator.py. A lock object is a number; `locked` is the state of all lock
-- objects. A call of `acquire` runs without a break up to the wait for its lock, and from the end of its
-- block to its own end, so these are steps.
use feather_os.Prelude.{
  ℕ, zero, suc, ◌-◌, String, Bool, true, false, ◌≡◌, Option, none, some, List, [], ◌∷◌, ◌++◌,
  if◌then◌else◌, str_eq, ◌==◌,
}

pub record Call : Type 0 where
  pub session_id : String
  pub lock : ℕ
  pub holds : Bool

pub record Coordinator : Type 0 where
  pub locks : String → Option ℕ
  pub refcounts : String → Option ℕ
  pub locked : ℕ → Bool
  pub created : ℕ
  pub calls : List Call

abbrev pub put : {A : Type 0} → String → A → (String → Option A) → String → Option A
put key a entries k = if str_eq key k then some a else entries k

abbrev pub delete : {A : Type 0} → String → (String → Option A) → String → Option A
delete key entries k = if str_eq key k then none else entries k

abbrev pub set_locked : ℕ → Bool → (ℕ → Bool) → ℕ → Bool
set_locked lock b locked l = if lock == l then b else locked l

abbrev pub get_lock : String → Option ℕ → Coordinator → ℕ × Coordinator
get_lock session_id (some lock) w = (lock, w)
get_lock session_id none w = (
  w.created,
  record w {
    locks = put session_id w.created w.locks;
    locked = set_locked w.created false w.locked;
    created = suc w.created;
  },
)

-- `self._refcounts.get(session_id, 0)`
abbrev pub references : Option ℕ → ℕ
references none = 0
references (some n) = n

-- `acquire` up to the wait for the lock.
unfoldable pub enter : String → Coordinator → Coordinator
enter session_id w =
    let (lock, u) = get_lock session_id (w.locks session_id) w in
    record u {
      refcounts = put session_id (suc (references (u.refcounts session_id))) u.refcounts;
      calls = u.calls ++ record { session_id = session_id; lock = lock; holds = false } ∷ [];
    }

-- The `finally` block.
abbrev pub drop_reference : String → ℕ → Coordinator → Coordinator
drop_reference session_id zero w = record w {
  refcounts = delete session_id w.refcounts;
  locks = delete session_id w.locks;
}
drop_reference session_id (suc remaining) w = record w {
  refcounts = put session_id (suc remaining) w.refcounts;
}

-- Only a held lock is released: a call that is cancelled while it waits has none.
abbrev pub release : Call → Coordinator → Coordinator
release c w = if c.holds then record w { locked = set_locked c.lock false w.locked } else w

-- The end of a call, which leaves the others.
unfoldable pub leave : Call → List Call → Coordinator → Coordinator
leave c others w =
    let u = release c (record w { calls = others }) in
    drop_reference c.session_id (references (u.refcounts c.session_id) - 1) u

abbrev pub take_lock : List Call → Call → List Call → Coordinator → Coordinator
take_lock pre c post w = record w {
  locked = set_locked c.lock true w.locked;
  calls = pre ++ record c { holds = true } ∷ post;
}

abbrev pub lock_state : Option ℕ → Coordinator → Bool
lock_state none w = false
lock_state (some lock) w = w.locked lock

unfoldable pub is_busy : String → Coordinator → Bool
is_busy session_id w = lock_state (w.locks session_id) w

-- `SessionRunCoordinator()`
abbrev pub new_coordinator : Coordinator
new_coordinator = record {
  locks = λ k. none;
  refcounts = λ k. none;
  locked = λ l. false;
  created = 0;
  calls = [];
}

-- A waiting call takes its lock when that is free; a call ends when its block does, or when it is
-- cancelled, before it has its lock or behind that.
pub data Step (w : Coordinator) : Coordinator → Type 0 where
  enters : (session_id : String) → Step w (enter session_id w)
  takes :
      (pre post : List Call) (c : Call)
      → w.calls ≡ pre ++ c ∷ post
      → c.holds ≡ false
      → w.locked c.lock ≡ false
      → Step w (take_lock pre c post w)
  leaves :
      (pre post : List Call) (c : Call)
      → w.calls ≡ pre ++ c ∷ post
      → Step w (leave c (pre ++ post) w)

pub data Reach (w : Coordinator) : Coordinator → Type 0 where
  here : Reach w w
  next : {u v : Coordinator} → Reach w u → Step u v → Reach w v
