-- ===== src/Compaction/Compactor.antt =====
-- src/feather/core/agent/compaction.py. Python's floats are the parameter Floats, the model behind the
-- provider is the parameter `complete`: other calls may write to the store while it answers, so it
-- gives the store that it leaves too. A count of tokens may be any integer of the provider's.
use feather_os.Prelude.{
  ℕ, ℤ, pos, negsuc, suc, ◌+◌, ◌-◌, max, String, ◌<>◌, Bool, true, false, not, Option, none, some,
  List, map, if◌then◌else◌, strip, is_empty, any, join, text_length, Result, ok, Exec, pure, lift,
  raise_if, ◌>>=◌, ◌>>◌,
}
use Prim.Native.Nat.{◌/◌}
use feather_os.Ipc.Json.{Json, boolean, integer, text, null, Fields, get, and_then}
use feather_os.Ipc.Events.{RuntimeEvent}
use feather_os.Tasks.Work.{unset, set}
use feather_os.Sessions.Records.{assistant, SessionMessage, Db}
use feather_os.Sessions.State.{update_response_state}
use feather_os.Sessions.Messages.{NewMessage, add_message}
use feather_os.Sessions.Windows.{list_active_messages}
use feather_os.Sessions.Rendering.{role_value, render_history_for_cache}

-- `divide` raises as `/` does; `percent` is the format `.1%`.
pub record Floats : Type 1 where
  pub Float : Type 0
  pub zero_float : Float
  pub divide : ℤ → ℤ → Result Float
  pub is_at_least : Float → Float → Bool
  pub percent : Float → String

module _ (F : Floats) where
  pub record CompactionConfig : Type 0 where
    pub enabled : Bool
    pub trigger_ratio : F.Float
    pub context_window_tokens : ℤ

  pub record CompactionDecision : Type 0 where
    pub should_compact : Bool
    pub input_tokens : ℤ
    pub usage_ratio : F.Float

-- `isinstance(v, int)`, which holds of a Boolean too
abbrev pub as_int : Option Json → Option ℤ
as_int (some (integer n)) = some n
as_int (some (boolean true)) = some (pos 1)
as_int (some (boolean false)) = some (pos 0)
as_int _ = none

-- `max(total - output, 0)`
abbrev pub surplus : ℤ → ℤ → ℕ
surplus (pos m) (pos n) = m - n
surplus (pos m) (negsuc n) = m + suc n
surplus (negsuc m) (pos n) = 0
surplus (negsuc m) (negsuc n) = n - m

abbrev pub difference : Option ℤ → Option ℤ → Option ℤ
difference (some total) (some output) = some (pos (surplus total output))
difference _ _ = none

abbrev pub or_difference : Option ℤ → Fields → Option ℤ
or_difference (some n) usage = some n
or_difference none usage =
    difference (as_int (get "total_tokens" usage)) (as_int (get "output_tokens" usage))

unfoldable pub extract_input_tokens : Option Fields → Option ℤ
extract_input_tokens none = none
extract_input_tokens (some usage) = or_difference (as_int (get "input_tokens" usage)) usage

abbrev pub estimate_line : SessionMessage → String
estimate_line m =
    role_value m.role <> ((if m.is_compact then "[compact]" else "") <> (": " <> m.content))

unfoldable pub estimate_input_tokens : List SessionMessage → ℤ
estimate_input_tokens messages =
    pos (max 1 (text_length (join "\n" (map estimate_line messages)) / 4))

-- No message at all is no new content either.
unfoldable pub has_compactable_content : List SessionMessage → Bool
has_compactable_content messages = any (λ m. not m.is_compact) messages

abbrev pub given_tokens : Option ℤ → List SessionMessage → ℤ
given_tokens none messages = estimate_input_tokens messages
given_tokens (some n) messages = n

pub record Call : Type 0 where
  pub message_id : String
  pub now : String
  pub touched : String
  pub updated : String

module _ (F : Floats) (config : CompactionConfig F) where
  abbrev pub no_compaction : CompactionDecision F
  no_compaction = record {
    should_compact = false;
    input_tokens = pos 0;
    usage_ratio = F.zero_float;
  }

  abbrev pub decide : ℤ → F.Float → CompactionDecision F
  decide input_tokens usage_ratio = record {
    should_compact = F.is_at_least usage_ratio config.trigger_ratio;
    input_tokens = input_tokens;
    usage_ratio = usage_ratio;
  }

  abbrev pub evaluate_messages : Option Fields → List SessionMessage → Result (CompactionDecision F)
  evaluate_messages usage messages =
      if has_compactable_content messages
      then (let input_tokens = given_tokens (extract_input_tokens usage) messages in
          and_then (F.divide input_tokens config.context_window_tokens)
            (λ usage_ratio. ok (decide input_tokens usage_ratio)))
      else ok no_compaction

  unfoldable pub evaluate : String → Option Fields → Db → Result (CompactionDecision F)
  evaluate session_id usage db =
      if config.enabled
      then evaluate_messages usage (list_active_messages session_id db)
      else ok no_compaction

  -- The handler of the events may raise; `complete` is the provider, the prompt and the
  -- configuration of its request included.
  module _ (dumps : String → String) (handler : Option (RuntimeEvent → Result (Unit {0})))
      (complete : (input_text : String) → Exec Db String) where
    abbrev pub emit : (kind event_text : String) → Result (Unit {0})
    emit kind event_text = elim handler [
      | none ↦ ok tt
      | some h ↦
          h (record { kind = kind; text = text event_text; tool_name = null; payload = null })
    ]

    abbrev pub summarise : String → Exec Db String
    summarise session_id db =
        complete
          ("Active conversation history to compact:\n\n"
            <> render_history_for_cache dumps session_id db)
          db

    abbrev pub summary_message : String → String → NewMessage
    summary_message session_id summary = record {
      session_id = session_id;
      role = assistant;
      content = summary;
      file_ref = none;
      is_compact = true;
    }

    unfoldable pub store_summary : (session_id summary : String) → Call → Exec Db Bool
    store_summary session_id summary c = do
      add_message (summary_message session_id summary) c.message_id c.now c.touched
      update_response_state session_id (set none) unset none c.updated
      lift (
          emit "compaction_finished"
            "Active history compacted. Future turns will replay from the latest compact summary.")
      pure true

    unfoldable pub compact : String → F.Float → Call → Exec Db Bool
    compact session_id usage_ratio c = do
      lift (
          emit "compaction_started"
            ("Compacting context at " <> (F.percent usage_ratio <> " of the configured window.")))
      output_text ← summarise session_id
      raise_if (is_empty (strip output_text)) "Compaction model returned an empty summary."
      store_summary session_id (strip output_text) c

    abbrev pub compact_if : String → Call → CompactionDecision F → Exec Db Bool
    compact_if session_id c decision =
        if decision.should_compact then compact session_id decision.usage_ratio c else pure false

    unfoldable pub maybe_compact : String → Option Fields → Call → Exec Db Bool
    maybe_compact session_id usage c db =
        (lift (evaluate session_id usage db) >>= compact_if session_id c) db
