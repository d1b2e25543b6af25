-- ===== src/Inputs/Spec.antt =====
-- What the queue promises, without the queue: the log of each session since it was last emptied. The
-- methods of UserInputQueue as calls, and the reply that each owes to its caller.
use feather_os.Prelude.{
  ℕ, min, ◌≡◌, String, Bool, not, List, [], ◌∷◌, ◌++◌, if◌then◌else◌, str_eq, strip, is_empty,
  length,
}
use feather_os.Inputs.{UserInputQueue, enqueue, drain, peek, depth, clear, extend}
use feather_os.Inputs.Windows.{newest, cleaned}

pub data Call : Type 0 where
  enqueued : String → String → Call
  extended : String → List String → Call
  drained peeked measured cleared : String → Call

pub data Reply : Type 0 where
  accepted : Bool → Reply
  number : ℕ → Reply
  items : List String → Reply

abbrev pub perform : Call → UserInputQueue → Reply × UserInputQueue
perform (enqueued s text) q = let r = enqueue s text q in (accepted r.0, r.1)
perform (extended s texts) q = let r = extend s texts q in (number r.0, r.1)
perform (drained s) q = let r = drain s q in (items r.0, r.1)
perform (peeked s) q = (items (peek s q), q)
perform (measured s) q = (number (depth s q), q)
perform (cleared s) q = let r = clear s q in (number r.0, r.1)

abbrev pub perform_all : List Call → UserInputQueue → List Reply × UserInputQueue
perform_all [] q = ([], q)
perform_all (c ∷ calls) q =
    let r = perform c q in let rest = perform_all calls r.1 in (r.0 ∷ rest.0, rest.1)

abbrev pub Log : Type 0
Log = String → List String

abbrev pub with_log : String → List String → Log → Log
with_log session texts log s = if str_eq session s then texts else log s

-- `n` is the bound of the queue.
abbrev pub owed : ℕ → Call → Log → Reply × Log
owed n (enqueued s text) log =
    let blank = is_empty (strip text) in
    (accepted (not blank), if blank then log else with_log s (log s ++ strip text ∷ []) log)
owed n (extended s texts) log =
    (number (length (cleaned texts)), with_log s (log s ++ cleaned texts) log)
owed n (drained s) log = (items (newest n (log s)), with_log s [] log)
owed n (peeked s) log = (items (newest n (log s)), log)
owed n (measured s) log = (number (min n (length (log s))), log)
owed n (cleared s) log = (number (min n (length (log s))), with_log s [] log)

abbrev pub owed_all : ℕ → List Call → Log → List Reply × Log
owed_all n [] log = ([], log)
owed_all n (c ∷ calls) log =
    let r = owed n c log in let rest = owed_all n calls r.1 in (r.0 ∷ rest.0, rest.1)

-- The queue holds the newest messages of each log.
pub record Represents (n : ℕ) (q : UserInputQueue) (log : Log) : Type 0 where
  pub bound : q.max_per_session ≡ n
  pub holds : (s : String) → peek s q ≡ newest n (log s)
