-- ===== src/Compaction/Examples.antt =====
-- A small session that is compacted, and one whose attachments are loaded at once.
use feather_os.Prelude.{
  ℕ, ℤ, pos, suc, ◌*◌, leb, String, ◌≡◌, refl, true, false, none, some, [], ◌∷◌, map, order_by,
  strip, int_text, ok, err, runtime_error, Result, Exec, pure,
}
use Prim.Native.Nat.{◌/◌}
use feather_os.Sessions.Records.{user, file, SessionMessage, Attachment, Db}
use feather_os.Sessions.State.{
  get_session, create_session, update_session_fields, update_response_state,
}
use feather_os.Sessions.Messages.{
  NewMessage, last_sequence, insert_message, add_message, add_attachment, list_message_attachments,
}
use feather_os.Sessions.Windows.{list_messages, get_latest_compact_message, list_active_messages}
use feather_os.Sessions.Rendering.{
  list_attachments_for_messages, render_attachment_history_block, render_history_for_cache,
}
use feather_os.Compaction.Compactor.{
  Floats, CompactionConfig, extract_input_tokens, estimate_input_tokens, has_compactable_content,
  evaluate, Call, store_summary, compact, maybe_compact,
}
use feather_os.Compaction.Outcomes.{Verdict, maybe_compact-Verdict}

abbrev hundredths : ℤ → ℤ → Result ℕ
hundredths (pos n) (pos (suc d)) = ok (100 * n / suc d)
hundredths (pos n) (pos _) = err (runtime_error "division by zero")
hundredths _ _ = ok 0

abbrev percents : Floats
percents = record {
  Float = ℕ;
  zero_float = 0;
  divide = hundredths;
  is_at_least = λ x y. leb y x;
  percent = λ x. int_text (pos x);
}

abbrev settings : CompactionConfig percents
settings = record { enabled = true; trigger_ratio = 80; context_window_tokens = pos 5 }

abbrev said : NewMessage
said = record {
  session_id = "s";
  role = user;
  content = "a long question";
  file_ref = none;
  is_compact = false;
}

abbrev sheet : Attachment
sheet = record {
  id = "a1";
  session_id = "s";
  message_id = "m1";
  kind = file;
  mime_type = "text/csv";
  original_name = "sheet";
  filepath = "/f";
  size_bytes = 3;
  created_at = "t1";
}

abbrev asked : Db
asked =
    (add_attachment sheet
      (add_message said "m1" "t1" "t1"
        (create_session "lead" (some "s") "k" "t0"
          (record { sessions = []; messages = []; attachments = [] })).1).1).1

abbrev answer : String → Exec Db String
answer input = pure " in short "

abbrev call : Call
call = record { message_id = "m2"; now = "t2"; touched = "t2"; updated = "t2" }

program : Unit {0}
unfolding order_by strip int_text get_session create_session update_session_fields
    update_response_state last_sequence insert_message add_message add_attachment
    list_message_attachments list_messages get_latest_compact_message list_active_messages
    list_attachments_for_messages render_attachment_history_block render_history_for_cache
    extract_input_tokens estimate_input_tokens has_compactable_content evaluate store_summary
    compact maybe_compact
program = tt

rendered :
    render_history_for_cache (λ s. s) "s" asked
    ≡ "user: a long question\nattachments:\n  [File #1] name=sheet mime=text/csv path=/f"
unfolding program
rendered = refl

compacted : (maybe_compact percents settings (λ s. s) none answer "s" none call asked).0 ≡ ok true
unfolding program
compacted = refl

window :
    map
      (λ (m : SessionMessage). m.content)
      (list_active_messages "s"
        (maybe_compact percents settings (λ s. s) none answer "s" none call asked).1)
    ≡ "in short" ∷ []
unfolding program
window = refl

maybe_compact-Verdict_example :
    Verdict percents settings
      (λ s. s)
      none
      answer
      "s"
      call
      asked
      (evaluate percents settings "s" none asked)
      (maybe_compact percents settings (λ s. s) none answer "s" none call asked)
maybe_compact-Verdict_example =
    maybe_compact-Verdict percents settings (λ s. s) none answer "s" call asked none
