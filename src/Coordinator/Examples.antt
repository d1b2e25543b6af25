-- ===== src/Coordinator/Examples.antt =====
-- Two calls for one session, and the theorem at them.
use feather_os.Prelude.{◌≡◌, refl, true, false, none, some, [], ◌∷◌, ◌++◌}
use feather_os.Coordinator.Locks.{
  Call, Coordinator, enter, leave, take_lock, is_busy, new_coordinator,
}
use feather_os.Coordinator.Locks
use feather_os.Coordinator.Exclusion.{IsOneAtATime, Reach-IsOneAtATime}

abbrev first : Call
first = record { session_id = "s"; lock = 0; holds = false }

abbrev both : Coordinator
both = enter "s" (enter "s" new_coordinator)

abbrev running : Coordinator
running = take_lock [] first (first ∷ []) both

abbrev ended : Coordinator
ended = leave (record first { holds = true }) ([] ++ first ∷ []) running

program : Unit {0}
unfolding enter leave is_busy
program = tt

busy_while_running : is_busy "s" running ≡ true
unfolding program
busy_while_running = refl

-- The entry stays for the second call, and goes with it.
kept : ended.refcounts "s" ≡ some 1
unfolding program
kept = refl

evicted : (leave first ([] ++ []) ended).locks "s" ≡ none
unfolding program
evicted = refl

takes_lock : Locks.Step both running
unfolding program
takes_lock = Locks.takes [] (first ∷ []) first refl refl refl

ends : Locks.Step running ended
unfolding program
ends = Locks.leaves [] (first ∷ []) (record first { holds = true }) refl

Reach-IsOneAtATime_example : IsOneAtATime ended
Reach-IsOneAtATime_example = Reach-IsOneAtATime (
    Locks.next
      (Locks.next (Locks.next (Locks.next Locks.here (Locks.enters "s")) (Locks.enters "s"))
        takes_lock)
      ends)
