-- ===== src/Compaction/Outcomes.antt =====
-- src/feather/core/agent/compaction.py: what `maybe_compact` leaves, however it ends.
use feather_os.Prelude.{
  String, ◌<>◌, ◌≡◌, refl, Bool, true, false, Option, [], ◌∷◌, ◌++◌, ◌⊎◌, inl, inr, Bool-cases,
  strip, is_empty, Result, Result-cases, ok, err, Exec,
}
use feather_os.Ipc.Json.{Fields}
use feather_os.Ipc.Events.{RuntimeEvent}
use feather_os.Sessions.Records.{SessionMessage, Db}
use feather_os.Sessions.State.{update_session_fields, update_response_state}
use feather_os.Sessions.Messages.{numbered, add_message}
use feather_os.Sessions.Windows.{list_active_messages}
use feather_os.Sessions.Appending.{add_message-row, add_message-raised}
use feather_os.Sessions.Summaries.{list_active_messages-new}
use feather_os.Compaction.Compactor.{
  Floats, CompactionConfig, CompactionDecision, has_compactable_content, evaluate, no_compaction,
  Call, emit, summarise, summary_message, store_summary, compact, maybe_compact,
}

module _ (F : Floats) (config : CompactionConfig F) (dumps : String → String)
    (handler : Option (RuntimeEvent → Result (Unit {0}))) (complete : String → Exec Db String) where
  -- The store `after` is `before` with one more message, which is the provider's text as a summary
  -- and the whole context window; it is not compacted again.
  pub record IsCompacted (session_id : String) (text : Result String) (before after : Db)
      : Type 0 where
    pub summary : SessionMessage
    pub answered : (t : String) × (text ≡ ok t) × (summary.content ≡ strip t)
    pub compacts : summary.is_compact ≡ true
    pub appended : after.messages ≡ before.messages ++ summary ∷ []
    pub window : list_active_messages session_id after ≡ summary ∷ []
    pub settled :
        (usage : Option Fields)
        → evaluate F config session_id usage after ≡ ok (no_compaction F config)

  settled_lem :
      (session_id : String) (usage : Option Fields) (db : Db) (m : SessionMessage)
      → m.is_compact ≡ true
      → list_active_messages session_id db ≡ m ∷ []
      → evaluate F config session_id usage db ≡ ok (no_compaction F config)
  unfolding evaluate has_compactable_content
  settled_lem session_id usage db m compacts window = elim (Bool-cases config.enabled) [
    | inl t ↦ rw (t, window) (rw compacts refl)
    | inr f ↦ rw f refl
  ]

  -- The rows are all that the context window depends on.
  compacted_lem :
      (session_id output_text : String) (text : Result String) (before after : Db) (c : Call)
      → text ≡ ok output_text
      → after.messages
        ≡ before.messages
          ++ numbered
              (summary_message F config dumps handler complete session_id (strip output_text))
              c.message_id
              c.now
              before.messages
            ∷ []
      → IsCompacted session_id text before after
  compacted_lem session_id output_text text before after c said grown =
      let a = summary_message F config dumps handler complete session_id (strip output_text) in
      let window = list_active_messages-new a refl c.message_id c.now before.messages after grown in
      record {
        summary = numbered a c.message_id c.now before.messages;
        answered = (output_text, said, refl);
        compacts = refl;
        appended = grown;
        window = window;
        settled = λ usage. settled_lem session_id usage after _ refl window;
      }

  module _ (session_id : String) (c : Call) (db : Db) where
    abbrev text : Result String
    text = (summarise F config dumps handler complete session_id db).0

    -- The store that the provider's answer finds.
    abbrev mid : Db
    mid = (summarise F config dumps handler complete session_id db).1

    -- What becomes of the store where `evaluate` says that it is to be compacted or not. An error is
    -- one from before the provider was asked, one of the provider or of storing its summary, or one of
    -- the event handler behind that.
    abbrev pub Outcome : (should_compact : Bool) → Result Bool × Db → Type 0
    Outcome should_compact (ok true, after) =
        (should_compact ≡ true) × IsCompacted session_id text mid after
    Outcome should_compact (ok false, after) = (should_compact ≡ false) × (after ≡ db)
    Outcome should_compact (err e, after) =
        (should_compact ≡ true)
        × ((after ≡ db) ⊎ (after ≡ mid) ⊎ IsCompacted session_id text mid after)

    store_summary-Outcome :
        (t : String)
        → text ≡ ok t
        → Outcome true (store_summary F config dumps handler complete session_id (strip t) c mid)
    unfolding store_summary update_response_state update_session_fields
    store_summary-Outcome t said =
        let a = summary_message F config dumps handler complete session_id (strip t) in
        let added = add_message a c.message_id c.now c.touched mid in
        elim (Result-cases added.0) [
          | inr (e, failed) ↦
              rw failed
                (refl, inr (inl (add_message-raised a c.message_id c.now c.touched mid e failed)))
          | inl (m, went) ↦
              let (free, is, grown) = add_message-row a c.message_id c.now c.touched mid m went in
              elim (Result-cases (
                emit F config dumps handler complete "compaction_finished"
                  "Active history compacted. Future turns will replay from the latest compact summary.")) [
                    | inr (e, failed) ↦
                        rw (went, failed)
                          (refl, inr (inr (compacted_lem session_id t text mid _ c said grown)))
                    | inl (u, sent) ↦
                        rw (went, sent) (refl, compacted_lem session_id t text mid _ c said grown)
                  ]
        ]

    compact-Outcome :
        (usage_ratio : F.Float)
        → Outcome true (compact F config dumps handler complete session_id usage_ratio c db)
    unfolding compact
    compact-Outcome usage_ratio =
        elim (Result-cases (
          emit F config dumps handler complete "compaction_started" (
            "Compacting context at " <> (F.percent usage_ratio <> " of the configured window.")))) [
              | inr (e, failed) ↦ rw failed (refl, inl refl)
              | inl (u, went) ↦ elim (Result-cases text) [
                | inr (e, failed) ↦ rw (went, failed) (refl, inr (inl refl))
                | inl (t, said) ↦ elim (Bool-cases (is_empty (strip t))) [
                  | inl blank ↦ rw (went, said, blank) (refl, inr (inl refl))
                  | inr worded ↦ rw (went, said, worded) (store_summary-Outcome t said)
                ]
              ]
            ]

    abbrev pub Verdict : Result (CompactionDecision F) → Result Bool × Db → Type 0
    Verdict (ok d) run = Outcome d.should_compact run
    Verdict (err e) (r, after) = (r ≡ err e) × (after ≡ db)

    -- `maybe_compact` does what `evaluate` says, whatever others write while the provider answers. If it
    -- returns false, compaction was not due and the store is as it was. If it returns true, compaction
    -- was due, and the store is the one that the provider's answer found with the answer, stripped, as
    -- one more message of the session: a summary, which is the session's whole context window, and for
    -- which `evaluate` says no. If it raises, the store is as it was or as the provider's answer found
    -- it, or it has the summary in the same way.
    pub maybe_compact-Verdict :
        (usage : Option Fields)
        → Verdict
            (evaluate F config session_id usage db)
            (maybe_compact F config dumps handler complete session_id usage c db)
    unfolding maybe_compact
    maybe_compact-Verdict usage = elim (Result-cases (evaluate F config session_id usage db)) [
      | inr (e, failed) ↦ rw failed (refl, refl)
      | inl (d, decided) ↦ elim (Bool-cases d.should_compact) [
        | inl t ↦ rw (decided, t) (compact-Outcome d.usage_ratio)
        | inr f ↦ rw (decided, f) (refl, refl)
      ]
    ]
