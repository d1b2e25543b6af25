-- ===== src/Subagents/Terminate.antt =====
-- src/feather/tools/terminate_agent_tool.py, `execute`. From the look at the registry to the removal
-- nothing else runs, since the locks are free; `note` is what the kill sequence came to.
use feather_os.Prelude.{
  ℕ, ℤ, String, ◌<>◌, not, ltb, Option, none, some, [], ◌∷◌, ◌++◌, if◌then◌else◌, str_eq, strip,
  is_empty, prefix, text_length, join, int_text, Exec, pure, raise, value_error, ◌>>=◌, ◌>>◌,
}
use feather_os.Subagents.Registry.{LiveSubagent, get}
use feather_os.Subagents.Reaper.{World, Moment, post_report, claim}

abbrev pub max_reason_chars : ℕ
max_reason_chars = 500

-- A reason that is no text counts as empty.
abbrev pub short_reason : Option String → String
short_reason none = ""
short_reason (some raw) =
    let reason = strip raw in
    if ltb max_reason_chars (text_length reason)
    then prefix max_reason_chars reason <> "..."
    else reason

abbrev pub termination : LiveSubagent → String → String → String → String → String
termination l session_id parent note reason = join "\n" (
    (("Sub-agent `" <> l.agent_name <> "` (session_id=" <> session_id <> ") terminated by "
        <> parent <> " (" <> note <> ").")
      ∷ [])
    ++ ((if is_empty reason then [] else ("reason: " <> reason) ∷ [])
        ++ ("Any in-progress work has been discarded. Remove this sub-agent from your active tracking."
            ∷ [])))

module _ (parent_agent_name context_session_id : String) where
  abbrev pub finish_termination :
      LiveSubagent
      → String
      → Option String
      → String
      → Moment
      → Option LiveSubagent
      → Exec World String
  finish_termination l session_id reason note m none = pure (
      "Sub-agent `" <> l.agent_name <> "` (session_id=" <> session_id
      <> ") was already being reaped; its real report is on the way.")
  finish_termination l session_id reason note m (some removed) = do
    post_report l (termination l session_id parent_agent_name note (short_reason reason)) m
    pure (
        "Sub-agent `" <> l.agent_name <> "` (session_id=" <> session_id <> ") terminated: " <> note
        <> ". Termination message delivered to your inbox.")

  abbrev pub if_running :
      Option ℤ → LiveSubagent → String → Option String → String → Moment → Exec World String
  if_running (some code) l session_id reason note m = pure (
      "Sub-agent `"
      <> l.agent_name
      <> "` (session_id="
      <> session_id
      <> ") has already exited (returncode="
      <> int_text code
      <> "). Its real final report will arrive via the reaper shortly.")
  if_running none l session_id reason note m = do
    removed ← claim session_id m.removed_at m.evicted_at
    finish_termination l session_id reason note m removed

  abbrev pub if_registered :
      Option LiveSubagent
      → (String → Option ℤ)
      → String
      → Option String
      → String
      → Moment
      → Exec World String
  if_registered none returncode session_id reason note m = pure (
      "Sub-agent `" <> session_id
      <> "` is not registered as live. It either already exited (its final report will arrive via the reaper) or the session_id is wrong. Nothing to terminate.")
  if_registered (some l) returncode session_id reason note m =
      if not (str_eq l.parent_session_id context_session_id)
      then raise (
          value_error (
            "terminate_agent refused: sub-agent `" <> session_id
            <> "` was spawned by a different session (parent_session_id=" <> l.parent_session_id
            <> ", current=" <> context_session_id <> ")."))
      else if_running (returncode session_id) l session_id reason note m

  -- A `session_id` that is no text counts as empty; it is refused like one.
  unfoldable pub terminate_agent :
      (session_id : String)
      → (reason : Option String) → (returncode : String → Option ℤ) → (note : String) → Moment
      → Exec World String
  terminate_agent raw reason returncode note m =
      let session_id = strip raw in
      if is_empty session_id
      then raise (value_error "terminate_agent `session_id` must be a non-empty string.")
      else λ w. if_registered (get session_id w.registry) returncode session_id reason note m w
