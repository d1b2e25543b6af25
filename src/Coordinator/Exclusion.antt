-- ===== src/Coordinator/Exclusion.antt =====
-- src/feather/core/session/coordinator.py: the runs of one session never overlap.
use feather_os.Prelude.{
  ℕ, ◌≤◌, String, Bool, true, ◌&&◌, ◌≡◌, refl, sym, ap, ◌∙◌, none, some, Option-cases, List, [],
  ◌∷◌, inl, inr, Bool-cases, arith, leb, str_eq, str_eq_iff, ◌==◌, count, In, All, All-In,
}
use feather_os.Coordinator.Locks.{
  Call, Coordinator, is_busy, new_coordinator, Step, enters, takes, leaves, Reach, here, next,
}
use feather_os.Coordinator.Entries.{
  is_of, holds_lock, HasLock, no_calls, IsCoordinated, enter-IsCoordinated, takes-IsCoordinated,
}
use feather_os.Coordinator.Endings.{leave-IsCoordinated}

Step-IsCoordinated : {w v : Coordinator} → Step w v → IsCoordinated w → IsCoordinated v
Step-IsCoordinated {w} (enters s) v = enter-IsCoordinated w v s
Step-IsCoordinated {w} (takes pre post c e h free) v = takes-IsCoordinated w v pre post c e h free
Step-IsCoordinated {w} (leaves pre post c e) v = leave-IsCoordinated w v pre post c e

Reach-IsCoordinated : {w v : Coordinator} → IsCoordinated w → Reach w v → IsCoordinated v
Reach-IsCoordinated v here = v
Reach-IsCoordinated v (next r st) = Step-IsCoordinated st (Reach-IsCoordinated v r)

new-IsCoordinated : IsCoordinated new_coordinator
new-IsCoordinated = record {
  references_are = λ i. refl;
  locks_are = tt;
  evicted = λ i h. refl;
  apart = λ i j l h k. cc;
  old = λ i l h. cc;
  held = λ l. refl;
}

abbrev pub runs : String → Call → Bool
runs session_id c = c.holds && is_of session_id c

-- A session's runs are one at a time; it is busy exactly while one runs; a call waits for a lock only
-- while another call of its session holds it; and a session without calls has no entry.
pub record IsOneAtATime (w : Coordinator) : Type 0 where
  pub alone : (i : String) → count (runs i) w.calls ≤ 1
  pub busy : (i : String) → is_busy i w ≡ leb 1 (count (runs i) w.calls)
  pub waits :
      (c : Call) → In c w.calls → w.locked c.lock ≡ true → count (runs c.session_id) w.calls ≡ 1
  pub bounded :
      (i : String) → count (is_of i) w.calls ≡ 0 → (w.locks i ≡ none) × (w.refcounts i ≡ none)

runs_le : (i : String) (calls : List Call) → count (runs i) calls ≤ count (is_of i) calls
runs_le i [] = omega arith
runs_le i (c ∷ calls) = ground (arith, runs_le i calls)

module _ (w : Coordinator) (v : IsCoordinated w) where
  -- The runs of a session are the holders of its lock.
  runs-holders :
      (i : String) (l : ℕ) (calls : List Call)
      → w.locks i ≡ some l
      → All (HasLock w.locks) calls
      → count (runs i) calls ≡ count (holds_lock l) calls
  runs-holders i l [] h a = refl
  runs-holders i l (c ∷ calls) h a =
      let rest = runs-holders i l calls h a.1 in
      elim (Bool-cases (str_eq c.session_id i)) [
        | inl t ↦
            let has : some c.lock ≡ some l =
              sym a.0 ∙ ap w.locks ((str_eq_iff c.session_id i).0 t) ∙ h in
            let p : c.lock ≡ l = cc in ground (arith, rest, t, p)
        | inr f ↦ elim (Bool-cases (c.lock == l)) [
          | inl t ↦
              let p : c.lock ≡ l = ground arith in
              let same = v.apart c.session_id i l (a.0 ∙ ap some p) h in
              cc ((str_eq_iff c.session_id i).1 same)
          | inr g ↦ ground (arith, rest, f, g)
        ]
      ]

  runs-none : (i : String) → w.locks i ≡ none → count (runs i) w.calls ≡ 0
  runs-none i h = omega (arith, runs_le i w.calls, no_calls w.locks i w.calls v.locks_are h)

  coordinated-IsOneAtATime : IsOneAtATime w
  unfolding is_busy
  coordinated-IsOneAtATime = record {
    alone = λ i. elim (Option-cases (w.locks i)) [
      | inl gone ↦ omega (arith, runs-none i gone)
      | inr (l, has) ↦ ground (arith, runs-holders i l w.calls has v.locks_are, v.held l)
    ];
    busy = λ i. elim (Option-cases (w.locks i)) [
      | inl gone ↦ rw (gone, runs-none i gone) refl
      | inr (l, has) ↦ rw has (ground (arith, runs-holders i l w.calls has v.locks_are, v.held l))
    ];
    waits = λ c i t.
        let has = All-In _ c w.calls v.locks_are i in
        runs-holders c.session_id c.lock w.calls has v.locks_are ∙ v.held c.lock ∙ rw t refl;
    bounded = λ i h. (v.evicted i h, v.references_are i ∙ rw h refl);
  }

-- Whatever calls of `acquire` come to a new coordinator, wait, run and end, by themselves or cancelled,
-- in whatever order: no two runs of one session overlap; `is_busy` says of a session whether one runs; a
-- lock that a call has to wait for is held by a run of its own session; and a session without calls has
-- no entry in either map.
pub Reach-IsOneAtATime : {w : Coordinator} → Reach new_coordinator w → IsOneAtATime w
Reach-IsOneAtATime {w} r = coordinated-IsOneAtATime w (Reach-IsCoordinated new-IsCoordinated r)
