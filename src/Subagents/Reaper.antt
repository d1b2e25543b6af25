-- ===== src/Subagents/Reaper.antt =====
-- src/feather/core/subagents/reaper.py: a pass of the reaper over the children that exited.
use feather_os.Prelude.{
  ℕ, suc, ℤ, String, ◌<>◌, false, Option, none, some, List, [], ◌∷◌, if◌then◌else◌, is_empty, Exec,
  pure, attempt, ok, ◌>>=◌, ◌>>◌,
}
use feather_os.Mailbox.{Store, Outgoing, send}
use feather_os.Tasks.Records.{Db}
use feather_os.Subagents.Registry.{LiveSubagent, SubagentRegistry, snapshot, remove}
use feather_os.Subagents.Reports.{Envelope, extract_envelope, render_body}
use feather_os.Subagents.Verdicts.{Draws, update_task_state}

pub record World : Type 0 where
  pub registry : SubagentRegistry
  pub tasks : Db
  pub mailbox : Store

-- What a child left behind: its exit code and what its pipes held when it was drained.
pub record Remains : Type 0 where
  pub returncode : ℤ
  pub stdout_text : String
  pub stderr_text : String

-- What the clocks and `uuid4` give while one child is reaped.
pub record Moment : Type 0 where
  pub removed_at : ℕ
  pub evicted_at : ℕ
  pub draws : Draws
  pub sent_at : String
  pub message_id : String
  pub fresh : String

abbrev pub on_tasks : {A : Type 0} → Exec Db A → Exec World A
on_tasks m w = let (r, tasks) = m w.tasks in (r, record w { tasks = tasks })

abbrev pub on_mailbox : {A : Type 0} → Exec Store A → Exec World A
on_mailbox m w = let (r, mailbox) = m w.mailbox in (r, record w { mailbox = mailbox })

abbrev pub final_report : LiveSubagent → String → Outgoing
final_report l body = record {
  from_session_id = l.session_id;
  from_agent_name = l.agent_name;
  to_session_id = l.parent_session_id;
  to_agent_name = l.parent_agent_name;
  body = body;
  expects_response = false;
  correlation_id = none;
  in_reply_to = l.correlation_id;
}

-- The note on the task stands above the body.
abbrev pub with_note : String → String → String
with_note note body = if is_empty note then body else note <> "\n\n" <> body

-- A refusal by the mailbox is logged and swallowed.
abbrev pub post_report : LiveSubagent → String → Moment → Exec World Unit
post_report l body m = do
  attempt (on_mailbox (send (final_report l body) m.sent_at m.message_id m.fresh))
  pure tt

-- `self._registry.remove(session_id)`, by which a child is claimed for its one final report
abbrev pub claim : String → (exited now : ℕ) → Exec World (Option LiveSubagent)
claim session_id exited now w =
    let (claimed, registry) = remove session_id exited now w.registry in
    (ok claimed, record w { registry = registry })

module _ (loads : String → Option Envelope) where
  abbrev pub deliver_final_report : LiveSubagent → Remains → Moment → Exec World Unit
  deliver_final_report l x m =
      let envelope = extract_envelope loads x.stdout_text in
      do
        note ← on_tasks (update_task_state l envelope x.returncode m.draws)
        post_report l (with_note note (render_body l envelope x.returncode x.stderr_text)) m

  -- Another remover may have been faster.
  abbrev pub after_claim : Option LiveSubagent → Remains → Moment → Exec World ℕ → Exec World ℕ
  after_claim none x m rest = rest
  after_claim (some l) x m rest = do deliver_final_report l x m; n ← rest; pure (suc n)

  abbrev pub reap_if_exited : LiveSubagent → Option Remains → Moment → Exec World ℕ → Exec World ℕ
  reap_if_exited l none m rest = rest
  reap_if_exited l (some x) m rest = do
    claimed ← claim l.session_id m.removed_at m.evicted_at
    after_claim claimed x m rest

  -- The loop over the snapshot; `remains` is none for a child that still runs.
  abbrev pub reap : (String → Option Remains) → (String → Moment) → List LiveSubagent → Exec World ℕ
  reap remains moment [] = pure 0
  reap remains moment (l ∷ live) =
      reap_if_exited l (remains l.session_id) (moment l.session_id) (reap remains moment live)

  unfoldable pub reap_exited : (String → Option Remains) → (String → Moment) → Exec World ℕ
  reap_exited remains moment w = reap remains moment (snapshot w.registry) w
