-- ===== src/Subagents/Ownership.antt =====
-- src/feather/core/subagents/reaper.py and src/feather/tools/terminate_agent_tool.py: whoever removes
-- a child from the registry owes the one final report on it.
use feather_os.Prelude.{
  ℕ, ◌+◌, ◌≤◌, String, ◌≡◌, refl, sym, ap, subst, Option, none, some, List, [], ◌∷◌, ◌++◌,
  if◌then◌else◌, Bool-cases, Option-cases, inl, inr, arith, str_eq, str_eq_iff, count-append, any,
  has_key, fetch, fetch-key, IsKeyed, IsKeyed-snoc, Sub-select, Sub-IsKeyed, length,
}
use feather_os.Mailbox.{Outgoing}
use feather_os.Mailbox.Replies.Posting.{send_lem}
use feather_os.Subagents.Registry.{LiveSubagent, SubagentRegistry, live_key, register, remove}
use feather_os.Subagents.Reports.{Envelope}
use feather_os.Subagents.Debts.{owes, debt, owed, resume-IsSettled}
use feather_os.Subagents.Tallies.{
  tally, letters_from, tally-select, tally-live, Verdict-letters, Verdict-mailed,
}
use feather_os.Subagents.Calls.{
  Call, reaping, terminating, Books, spawn, mail, ask_for, Step, Reach, spawns, mails, reaps,
  terminates, resumes, here, next,
}

-- A child is live once at most. Its spawns, and what it mailed besides, are its place among the live
-- children, the reports owed and the reports lost, and the messages from it in the mailbox. A call
-- raises only where a report is lost, and a reaper that had a child counts it or raises.
pub record IsAccounted (b : Books) : Type 0 where
  pub keyed : IsKeyed live_key b.world.registry.live
  pub balanced :
      (k : String)
      → tally k b.spawned + letters_from k b.mailed
        ≡ tally k b.world.registry.live
          + owed k b.calls
          + tally k b.lost
          + letters_from k b.world.mailbox.messages
  pub excused : b.raised ≤ length b.lost
  pub counted : b.reaped + b.raised ≡ b.turns

spawn-IsAccounted : (l : LiveSubagent) (b : Books) → IsAccounted b → IsAccounted (spawn l b)
unfolding register
spawn-IsAccounted l b v =
    elim (Bool-cases (any (has_key live_key l.session_id) b.world.registry.live)) [
      | inl taken ↦ rw taken (record {
        keyed = v.keyed;
        balanced = v.balanced;
        excused = v.excused;
        counted = v.counted;
      })
      | inr free ↦ rw free (record {
        keyed = IsKeyed-snoc live_key l b.world.registry.live v.keyed free;
        balanced = λ k.
            ground (
              arith,
              v.balanced k,
              count-append (has_key live_key k) b.world.registry.live (l ∷ []),
            );
        excused = v.excused;
        counted = v.counted;
      })
    ]

-- A call that got a child owes a report on it, and no other call does.
record Honest (call : Option LiveSubagent → Call) (session_id : String) : Type 0 where
  idle : (k : String) → debt k (call none) ≡ 0
  owing :
      (k : String) (l : LiveSubagent)
      → l.session_id ≡ session_id
      → debt k (call (some l)) ≡ owes k (some l)

ask_for-IsAccounted :
    (call : Option LiveSubagent → Call)
    → (session_id : String) (exited now : ℕ) (b : Books) → Honest call session_id
    → IsAccounted b
    → IsAccounted (ask_for call session_id exited now b)
unfolding remove
ask_for-IsAccounted call session_id exited now b honest v =
    elim (Option-cases (fetch live_key session_id b.world.registry.live)) [
      | inl missing ↦ rw missing (record {
        keyed = v.keyed;
        balanced = λ k. omega (arith, v.balanced k, honest.idle k);
        excused = v.excused;
        counted = v.counted;
      })
      | inr (l, there) ↦ rw there (record {
        keyed = Sub-IsKeyed live_key (Sub-select _ b.world.registry.live) v.keyed;
        balanced = λ k.
            let live = b.world.registry.live in
            ground (
              arith,
              v.balanced k,
              honest.owing k l (fetch-key live_key session_id l b.world.registry.live there),
              tally-select k session_id live,
              tally-live session_id live l v.keyed there,
              fetch-key live_key session_id l live there,
              str_eq_iff l.session_id k,
              str_eq_iff session_id k,
            );
        excused = v.excused;
        counted = v.counted;
      })
    ]

mail-IsAccounted :
    (o : Outgoing) (now message_id fresh : String) (b : Books)
    → IsAccounted b
    → IsAccounted (mail o now message_id fresh b)
mail-IsAccounted o now message_id fresh b v =
    let verdict = send_lem o now message_id fresh b.world.mailbox in
    record {
      keyed = v.keyed;
      balanced = λ k.
          omega (arith, v.balanced k, Verdict-letters k verdict, Verdict-mailed k b.mailed verdict);
      excused = v.excused;
      counted = v.counted;
    }

-- A call that goes on leaves the calls that owe.
owed-leave :
    (k : String) (pre post : List Call) (call : Call)
    → owed k (pre ++ call ∷ post) ≡ debt k call + owed k (pre ++ post)
owed-leave k [] post call = refl
owed-leave k (c ∷ pre) post call = omega (arith, owed-leave k pre post call)

module _ (loads : String → Option Envelope) where
  Step-IsAccounted : {b c : Books} → Step loads b c → IsAccounted b → IsAccounted c
  Step-IsAccounted {b} (spawns l) v = spawn-IsAccounted l b v
  Step-IsAccounted {b} (mails o now message_id fresh) v =
      mail-IsAccounted o now message_id fresh b v
  Step-IsAccounted {b} (reaps session_id exited now) v =
      ask_for-IsAccounted reaping session_id exited now b
        (record { idle = λ k. refl; owing = λ k l e. refl }) v
  Step-IsAccounted {b} (terminates found exited now) v =
      ask_for-IsAccounted (terminating found) found.session_id exited now b
        (record {
          idle = λ k. refl;
          owing = λ k l e. ap (λ i. if str_eq i k then 1 else 0) (sym e);
        })
        v
  Step-IsAccounted {b} (resumes pre post call x e) v =
      let s = resume-IsSettled loads call x b.world b.lost in
      record {
        keyed = subst (λ (r : SubagentRegistry). IsKeyed live_key r.live) (sym s.registry) v.keyed;
        balanced = λ k. omega (
          arith,
          v.balanced k,
          s.letters k,
          ap (owed k) e,
          owed-leave k pre post call,
          ap (λ (r : SubagentRegistry). tally k r.live) s.registry,
        );
        excused = omega (arith, v.excused, s.excuse);
        counted = omega (arith, v.counted, s.count);
      }

  -- However spawns, other mail, passes of the reaper and terminations interleave, on both sides of
  -- the gate that `remove` is, from books that are accounted for: the spawns of a child, and the
  -- messages that it mailed besides, stay as many as its places among the live children (one at
  -- most), the reports that calls owe on it, the reports that were lost, and the messages from it
  -- in the mailbox. So a child that was spawned once and has left the registry has exactly one
  -- message there beside its own mail once no call owes its report, unless the report was lost,
  -- that is, the task store raised or the mailbox had a reason to refuse it. No more calls raise
  -- than reports are lost, and the reapers count one child for each turn in which they had one and
  -- did not raise.
  pub Reach-IsAccounted : {b c : Books} → IsAccounted b → Reach loads b c → IsAccounted c
  Reach-IsAccounted v here = v
  Reach-IsAccounted v (next r st) = Step-IsAccounted st (Reach-IsAccounted v r)
