-- ===== src/Subagents/Debts.antt =====
-- src/feather/core/subagents/reaper.py and src/feather/tools/terminate_agent_tool.py: the reports that
-- calls owe, and how a call that goes on settles its own.
use feather_os.Prelude.{
  Result, ℕ, ◌+◌, ◌≤◌, String, ◌≡◌, refl, Option, none, some, List, [], ◌∷◌, if◌then◌else◌,
  Result-cases, inl, inr, arith, has_key, length,
}
use feather_os.Subagents.Registry.{LiveSubagent, live_key}
use feather_os.Subagents.Reports.{Envelope, extract_envelope, render_body}
use feather_os.Subagents.Verdicts.{update_task_state}
use feather_os.Subagents.Reaper.{World, with_note}
use feather_os.Subagents.Terminate.{termination, short_reason}
use feather_os.Subagents.Tallies.{tally, letters_from, post_report-letters, length-note_loss}
use feather_os.Subagents.Calls.{
  Call, reaping, terminating, Setting, resume, failures, returned, turn, losses,
}

abbrev pub owes : String → Option LiveSubagent → ℕ
owes session_id none = 0
owes session_id (some l) = if has_key live_key session_id l then 1 else 0

abbrev pub debt : String → Call → ℕ
debt session_id (reaping l) = owes session_id l
debt session_id (terminating found none) = 0
debt session_id (terminating found (some l)) = owes session_id (some found)

-- How many reports on a child are owed by calls that have not gone on yet.
abbrev pub owed : String → List Call → ℕ
owed session_id [] = 0
owed session_id (c ∷ calls) = debt session_id c + owed session_id calls

-- What a call does behind the gate: it settles its debt, and raises only if it loses its report.
pub record IsSettled (call : Call) (before after : World) (r : Result ℕ)
    (lost lost' : List LiveSubagent) : Type 0 where
  pub registry : after.registry ≡ before.registry
  pub letters :
      (k : String)
      → letters_from k after.mailbox.messages + tally k lost'
        ≡ letters_from k before.mailbox.messages + tally k lost + debt k call
  pub excuse : failures r + length lost ≤ length lost'
  pub count : returned r + failures r ≡ turn call

module _ (loads : String → Option Envelope) where
  pub resume-IsSettled :
      (call : Call) (x : Setting) (w : World) (lost : List LiveSubagent)
      → IsSettled call w
          (resume loads call x w).1
          (resume loads call x w).0
          lost
          (losses loads call x w lost)
  resume-IsSettled (reaping none) x w lost = record {
    registry = refl;
    letters = λ k. omega arith;
    excuse = omega arith;
    count = omega arith;
  }
  resume-IsSettled (reaping (some l)) x w lost =
      let envelope = extract_envelope loads x.remains.stdout_text in
      let (_, tasks) = update_task_state l envelope x.remains.returncode x.moment.draws w.tasks in
      let report = render_body l envelope x.remains.returncode x.remains.stderr_text in
      elim (Result-cases
        (update_task_state l envelope x.remains.returncode x.moment.draws w.tasks).0) [
          | inl (note, e) ↦ rw e (record {
            registry = refl;
            letters = λ k.
                post_report-letters k l (with_note note report) x.moment
                  (record w { tasks = tasks }) lost;
            excuse = length-note_loss _ l lost;
            count = omega arith;
          })
          | inr (y, e) ↦ rw e (record {
            registry = refl;
            letters = λ k. ground arith;
            excuse = omega arith;
            count = omega arith;
          })
        ]
  resume-IsSettled (terminating found none) x w lost = record {
    registry = refl;
    letters = λ k. omega arith;
    excuse = omega arith;
    count = omega arith;
  }
  resume-IsSettled (terminating found (some l)) x w lost = record {
    registry = refl;
    letters = λ k.
        post_report-letters k found
          (termination found found.session_id x.parent_agent_name x.note (short_reason x.reason))
          x.moment w lost;
    excuse = length-note_loss _ found lost;
    count = omega arith;
  }
