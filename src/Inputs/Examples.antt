-- ===== src/Inputs/Examples.antt =====
-- A queue with room for two messages per session, and the theorems at it.
use feather_os.Prelude.{◌≡◌, refl, pos, ok, [], ◌∷◌, List, strip, true, false}
use feather_os.Inputs.{
  UserInputQueue, init, setdefault, push, enqueue, drain, peek, depth, clear, extend,
}
use feather_os.Inputs.Spec.{
  Call, enqueued, extended, drained, peeked, cleared, measured, accepted, number, items,
  perform_all, owed_all,
}
use feather_os.Inputs.Refinement.{no_log, init-perform_all}

abbrev fresh : UserInputQueue
fresh = record { max_per_session = 2; queues = [] }

abbrev calls : List Call
calls =
    enqueued "s1" " use tabs "
    ∷ enqueued "s2" "stop"
    ∷ enqueued "s1" "   "
    ∷ extended "s1" ("no, spaces" ∷ "" ∷ "four of them" ∷ [])
    ∷ peeked "s2"
    ∷ drained "s1"
    ∷ measured "s1"
    ∷ cleared "s2"
    ∷ []

made : init (pos 2) ≡ ok fresh
unfolding init
made = refl

-- The first message is dropped, since the queue of "s1" was full.
replies :
    (perform_all calls fresh).0
    ≡ accepted true
      ∷ accepted true
      ∷ accepted false
      ∷ number 2
      ∷ items ("stop" ∷ [])
      ∷ items ("no, spaces" ∷ "four of them" ∷ [])
      ∷ number 0
      ∷ number 1
      ∷ []
unfolding setdefault push enqueue drain peek depth clear extend strip
replies = refl

init-perform_all_example : (perform_all calls fresh).0 ≡ (owed_all 2 calls no_log).0
init-perform_all_example = init-perform_all 2 fresh made calls
