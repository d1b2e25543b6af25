-- ===== src/Sessions/Summaries.antt =====
-- src/feather/storage/session_store.py: the context window behind a new summary.
use feather_os.Prelude.{
  ◌≤◌, String, ◌≡◌, refl, ap, subst, ◌∙◌, true, some, List, [], ◌∷◌, ◌++◌, inl, inr, arith,
  str_eq_refl, select, select-append, select-none, In, In-append, In-append_right, All-map, All-In,
  desc, desc-IsOrder, order_by, first_lem, sym,
}
use feather_os.Sessions.Records.{SessionMessage, Db}
use feather_os.Sessions.Messages.{NewMessage, numbered}
use feather_os.Sessions.Windows.{
  by_sequence, is_summary, from_sequence, active_from, get_latest_compact_message,
  list_active_messages,
}
use feather_os.Sessions.Sequences.{last_sequence-All}
use feather_os.Sessions.Context.{by_sequence-IsOrder}

module _ (a : NewMessage) (compacts : a.is_compact ≡ true) (message_id now : String)
    (rows : List SessionMessage) (db : Db)
    (grown : db.messages ≡ rows ++ numbered a message_id now rows ∷ []) where
  abbrev m : SessionMessage
  m = numbered a message_id now rows

  new-is_summary : is_summary a.session_id m ≡ true
  new-is_summary = rw (str_eq_refl a.session_id, compacts) refl

  -- A summary that is at least the new one is the new one.
  greatest_lem :
      (x : SessionMessage)
      → In x db.messages
      → is_summary a.session_id x ≡ true
      → m.sequence ≤ x.sequence
      → x ≡ m
  greatest_lem x i s le = elim (In-append x rows (m ∷ []) (subst (In x) grown i)) [
    | inl old ↦
        let bound = All-In _ x rows (last_sequence-All a.session_id rows) old in
        ground (arith, s, le, bound)
    | inr new ↦ elim new [ inl e ↦ e | inr none ↦ elim none [ ] ]
  ]

  get_latest_compact_message-new : get_latest_compact_message a.session_id db ≡ some m
  unfolding get_latest_compact_message
  get_latest_compact_message-new =
      let stands : In m db.messages =
        subst (In m) (sym grown) (In-append_right m rows (m ∷ []) (inl refl)) in
      elim (first_lem (desc by_sequence) (desc-IsOrder by_sequence-IsOrder)
        (is_summary a.session_id) db.messages) [
          | inl (missing, no_summary) ↦ cc (no_summary m stands, new-is_summary)
          | inr (x, found, there, summary, last) ↦
              let le = last m stands new-is_summary in
              found ∙ ap some (greatest_lem x there summary (ground (arith, le)))
        ]

  -- The new summary alone is the context window of its session.
  pub list_active_messages-new : list_active_messages a.session_id db ≡ m ∷ []
  unfolding list_active_messages order_by
  list_active_messages-new =
      let p = from_sequence a.session_id m.sequence in
      let none_before : select p rows ≡ [] =
        select-none p rows
          (All-map _ _ rows (λ x le. ground (arith, le)) (last_sequence-All a.session_id rows)) in
      let kept : p m ≡ true = ground (arith, str_eq_refl a.session_id) in
      let matches : select p db.messages ≡ m ∷ [] =
        ap (select p) grown ∙ select-append p rows (m ∷ []) ∙ rw (none_before, kept) refl in
      ap (λ latest. active_from a.session_id latest db) get_latest_compact_message-new
      ∙ ap (order_by by_sequence) matches
