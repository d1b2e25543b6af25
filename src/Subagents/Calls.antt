-- ===== src/Subagents/Calls.antt =====
-- src/feather/core/subagents/reaper.py and src/feather/tools/terminate_agent_tool.py: passes of the
-- reaper and calls of `terminate_agent` that interleave, with each other and with whatever else is
-- mailed. Such a call lets others run after its `remove`. What comes next is one step, which runs
-- the code behind the gate. The rest of a pass is further steps.
use feather_os.Prelude.{
  ℕ, ◌+◌, String, Bool, Option, none, some, List, ◌∷◌, ◌++◌, ◌≡◌, if◌then◌else◌, Result, ok, err,
  pure,
}
use feather_os.Mailbox.{Message, Outgoing, send}
use feather_os.Mailbox.Replies.Posting.{is_refused}
use feather_os.Subagents.Registry.{LiveSubagent, register}
use feather_os.Subagents.Reports.{Envelope, extract_envelope, render_body}
use feather_os.Subagents.Verdicts.{update_task_state}
use feather_os.Subagents.Reaper.{
  World, Remains, Moment, claim, after_claim, final_report, with_note,
}
use feather_os.Subagents.Terminate.{finish_termination, termination, short_reason}

-- A call that has asked for a child, with what `remove` gave it; `found` is the child as the registry
-- showed it to `terminate_agent` before that, under its own id.
pub data Call : Type 0 where
  reaping : Option LiveSubagent → Call
  terminating : (found : LiveSubagent) → Option LiveSubagent → Call

-- What a call meets when it goes on.
pub record Setting : Type 0 where
  pub remains : Remains
  pub parent_agent_name : String
  pub context_session_id : String
  pub reason : Option String
  pub note : String
  pub moment : Moment

-- The world, and its history: the children that were spawned, the messages that others mailed, the
-- children whose report could not be posted, the number of the calls that raised, the turns in which
-- a reaper had a child, and the number of children that the reapers counted as reaped.
pub record Books : Type 0 where
  pub world : World
  pub calls : List Call
  pub spawned : List LiveSubagent
  pub mailed : List Message
  pub lost : List LiveSubagent
  pub raised : ℕ
  pub turns : ℕ
  pub reaped : ℕ

abbrev note_spawn : Result (Unit {0}) → LiveSubagent → List LiveSubagent → List LiveSubagent
note_spawn (ok _) l spawned = l ∷ spawned
note_spawn (err e) l spawned = spawned

abbrev pub spawn : LiveSubagent → Books → Books
spawn l b =
    let (r, registry) = register l b.world.registry in
    record b { world = record b.world { registry = registry }; spawned = note_spawn r l b.spawned }

abbrev pub note_mail : Result Message → List Message → List Message
note_mail (ok m) mailed = m ∷ mailed
note_mail (err e) mailed = mailed

abbrev pub mail : Outgoing → (now message_id fresh : String) → Books → Books
mail o now message_id fresh b =
    let (r, mailbox) = send o now message_id fresh b.world.mailbox in
    record b { world = record b.world { mailbox = mailbox }; mailed = note_mail r b.mailed }

abbrev answer : Result (Option LiveSubagent) → Option LiveSubagent
answer (ok l) = l
answer (err e) = none

-- A call takes its turn at the gate; `call` is the rest of it, for what the gate gives it.
abbrev pub ask_for : (Option LiveSubagent → Call) → String → (exited now : ℕ) → Books → Books
ask_for call session_id exited now b =
    let (r, world) = claim session_id exited now b.world in
    record b { world = world; calls = call (answer r) ∷ b.calls }

abbrev pub failures : Result ℕ → ℕ
failures (ok n) = 0
failures (err e) = 1

abbrev pub returned : Result ℕ → ℕ
returned (ok n) = n
returned (err e) = 0

-- A termination counts nothing.
abbrev silent : Result String → Result ℕ
silent (ok text) = ok 0
silent (err e) = err e

abbrev pub turn : Call → ℕ
turn (reaping (some l)) = 1
turn _ = 0

abbrev pub note_loss : Bool → LiveSubagent → List LiveSubagent → List LiveSubagent
note_loss refused l lost = if refused then l ∷ lost else lost

module _ (loads : String → Option Envelope) where
  -- What the call does behind the gate; a reaper returns how many children it has reaped there.
  abbrev pub resume : Call → Setting → World → Result ℕ × World
  resume (reaping claimed) x w = after_claim loads claimed x.remains x.moment (pure 0) w
  resume (terminating found removed) x w =
      let (r, w') =
        finish_termination x.parent_agent_name x.context_session_id found found.session_id x.reason
          x.note x.moment removed w in
      (silent r, w')

  abbrev refuses : LiveSubagent → String → Setting → World → Bool
  refuses l body x w = is_refused (final_report l body) x.moment.message_id w.mailbox

  abbrev note_reap :
      Result String → LiveSubagent → Setting → World → List LiveSubagent → List LiveSubagent
  note_reap (err e) l x w lost = l ∷ lost
  note_reap (ok note) l x w lost =
      let envelope = extract_envelope loads x.remains.stdout_text in
      let body = render_body l envelope x.remains.returncode x.remains.stderr_text in
      note_loss (refuses l (with_note note body) x w) l lost

  -- A report that is owed is lost exactly if the task store raises or the mailbox has a reason to
  -- refuse it.
  abbrev pub losses : Call → Setting → World → List LiveSubagent → List LiveSubagent
  losses (reaping none) x w lost = lost
  losses (reaping (some l)) x w lost =
      let envelope = extract_envelope loads x.remains.stdout_text in
      let (r, _) = update_task_state l envelope x.remains.returncode x.moment.draws w.tasks in
      note_reap r l x w lost
  losses (terminating found none) x w lost = lost
  losses (terminating found (some l)) x w lost =
      let body =
        termination found found.session_id x.parent_agent_name x.note (short_reason x.reason) in
      note_loss (refuses found body x w) found lost

  -- One of the calls goes on; `pre` and `post` are the others.
  abbrev pub proceed : (pre post : List Call) → Call → Setting → Books → Books
  proceed pre post call x b = record b {
    world = (resume call x b.world).1;
    calls = pre ++ post;
    lost = losses call x b.world b.lost;
    raised = failures (resume call x b.world).0 + b.raised;
    turns = turn call + b.turns;
    reaped = returned (resume call x b.world).0 + b.reaped;
  }

  pub data Step (b : Books) : Books → Type 0 where
    spawns : (l : LiveSubagent) → Step b (spawn l b)
    mails : (o : Outgoing) (now message_id fresh : String) → Step b (mail o now message_id fresh b)
    reaps :
        (session_id : String) (exited now : ℕ) → Step b (ask_for reaping session_id exited now b)
    terminates :
        (found : LiveSubagent) (exited now : ℕ)
        → Step b (ask_for (terminating found) found.session_id exited now b)
    resumes :
        (pre post : List Call) (call : Call) (x : Setting)
        → b.calls ≡ pre ++ call ∷ post
        → Step b (proceed pre post call x b)

  pub data Reach (b : Books) : Books → Type 0 where
    here : Reach b b
    next : {c d : Books} → Reach b c → Step c d → Reach b d
