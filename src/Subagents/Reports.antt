-- ===== src/Subagents/Reports.antt =====
-- src/feather/core/subagents/reaper.py and src/feather/tools/spawn_agent_tool.py: what the output of
-- a child is read as, and the message that its parent is sent. `loads` is `json.loads`, which gives
-- an object or nothing; of an object the code reads three texts.
use feather_os.Prelude.{
  ℕ, ◌-◌, ℤ, String, ◌<>◌, Option, none, some, List, [], ◌∷◌, ◌++◌, if◌then◌else◌, ltb, leb, str_eq,
  strip, is_empty, prefix, after, text_length, without_start, words, join, int_text,
}
use feather_os.Tasks.Events.{or_else}
use feather_os.Subagents.Registry.{LiveSubagent}

-- `str(envelope.get(key) or "")` for the keys that are read.
pub record Envelope : Type 0 where
  pub status : String
  pub error : String
  pub assistant_text : String

abbrev pub result_begin : String
result_begin = "##FEATHER_SUBAGENT_RESULT_BEGIN##"

abbrev pub result_end : String
result_end = "##FEATHER_SUBAGENT_RESULT_END##"

-- The text behind the first occurrence of a marker.
unfoldable pub after_marker : String → String → Option String
after_marker marker String.[] = without_start marker String.[]
after_marker marker (String.◌∷◌ c s) = elim (without_start marker (String.◌∷◌ c s)) [
  | some rest ↦ some rest
  | none ↦ after_marker marker s
]

abbrev prepend : Option String → String → Option String → Option String
prepend (some rest) c found = some ""
prepend none c none = none
prepend none c (some s) = some (c <> s)

-- The text before the first occurrence of a marker.
unfoldable pub before_marker : String → String → Option String
before_marker marker String.[] = prepend (without_start marker String.[]) "" none
before_marker marker (String.◌∷◌ c s) =
    prepend (without_start marker (String.◌∷◌ c s)) (String.◌∷◌ c String.[])
      (before_marker marker s)

abbrev parsed : (String → Option Envelope) → Option String → Option Envelope
parsed loads none = none
parsed loads (some text) = loads (strip text)

abbrev between : Option String → Option String
between none = none
between (some rest) = before_marker result_end rest

-- The pattern BEGIN\s*(.*?)\s*END, its group stripped, as JSON.
unfoldable pub extract_envelope : (String → Option Envelope) → String → Option Envelope
extract_envelope loads stdout_text = parsed loads (between (after_marker result_begin stdout_text))

abbrev pub envelope_status : Option Envelope → String
envelope_status none = "unknown"
envelope_status (some e) = or_else e.status "unknown"

abbrev pub max_report_chars : ℕ
max_report_chars = 8000

abbrev pub stderr_tail_chars : ℕ
stderr_tail_chars = 800

unfoldable pub tail_of : String → ℕ → String
tail_of text limit =
    if is_empty text
    then ""
    else let collapsed = join " " (words text) in
      let n = text_length collapsed in
      if leb n limit then collapsed else "..." <> after (n - limit) collapsed

abbrev pub shortened : String → String
shortened text =
    if ltb max_report_chars (text_length text)
    then prefix max_report_chars text <> "\n...(truncated to 8000 chars)"
    else text

abbrev given : String → List String → List String
given text lines = if is_empty text then [] else lines

unfoldable pub render_body : LiveSubagent → Option Envelope → ℤ → String → String
render_body l none returncode stderr_text =
    "Sub-agent `"
    <> l.agent_name
    <> "` (session_id="
    <> l.session_id
    <> ") exited (code="
    <> int_text returncode
    <> ") with no parseable result envelope. stderr tail: "
    <> or_else (tail_of stderr_text stderr_tail_chars) "(empty)"
render_body l (some e) returncode stderr_text =
    let status = or_else e.status "unknown" in
    let assistant_text = shortened (strip e.assistant_text) in
    if str_eq status "completed"
    then "Sub-agent `"
      <> l.agent_name
      <> "` completed (session_id="
      <> l.session_id
      <> ").\n\n"
      <> or_else assistant_text "(no final text)"
    else join "\n" (
        (("Sub-agent `" <> l.agent_name <> "` did NOT complete (status=" <> status
            <> ", session_id=" <> l.session_id <> ").")
          ∷ [])
        ++ (given e.error (("error: " <> e.error) ∷ [])
            ++ given assistant_text ("" ∷ "Partial:" ∷ assistant_text ∷ [])))
