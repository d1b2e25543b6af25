-- ===== src/Mailbox/Bounds.antt =====
-- The inbox cap: no recipient ever has more pending messages than `inbox_cap`.
use feather_os.Prelude.{
  ◌≤◌, ◌<◌, ◌≡◌, String, false, ◌&&◌, inl, inr, List, [], ◌∷◌, ◌++◌, arith, Bool-cases, str_eq,
  &&-eq_true, str_eq_iff, is_empty, count, any, select, not, count-append,
}
use feather_os.Mailbox.{
  Message, Store, Outgoing, addressed, has_id, pending_count, enforce_inbox_cap, new_message,
  send_transaction, send, mark_delivered, claim_first, claim_reply,
}
use feather_os.Mailbox.Counting.{
  enforce_inbox_cap-le, enforce_inbox_cap-lt, flip_question-le, deliver-le, addressed-count_new,
}

abbrev pub IsBounded : Store → Type 0
IsBounded s = (session agent : String) → pending_count session agent s ≤ s.inbox_cap

-- A row for another recipient is not counted.
count-elsewhere :
    (session agent : String) (m : Message)
    → (str_eq m.to_session_id session && str_eq m.to_agent_name agent) ≡ false
    → count (addressed session agent) (m ∷ []) ≡ 0
count-elsewhere session agent m h = ground arith

module _ (o : Outgoing) (now message_id fresh : String) (s : Store) where
  abbrev room : List Message
  room = enforce_inbox_cap s.inbox_cap o.to_session_id o.to_agent_name s.messages

  -- With room made for its recipient, one more row fits everywhere.
  insert-le :
      (session agent : String)
      → 0 < s.inbox_cap
      → IsBounded s
      → count (addressed session agent) (room ++ new_message o now message_id fresh ∷ [])
        ≤ s.inbox_cap
  unfolding pending_count
  insert-le session agent pos bounded =
      let m = new_message o now message_id fresh in
      rw (count-append (addressed session agent) room (m ∷ []))
        (elim (Bool-cases (str_eq o.to_session_id session && str_eq o.to_agent_name agent)) [
          | inl same ↦
              let (to, for) = &&-eq_true _ _ same in
              rw
                (
                  ← (str_eq_iff o.to_session_id session).0 to,
                  ← (str_eq_iff o.to_agent_name agent).0 for,
                )
                (omega (
                  arith,
                  enforce_inbox_cap-lt o.to_session_id o.to_agent_name s.inbox_cap s.messages pos
                      (bounded o.to_session_id o.to_agent_name),
                  addressed-count_new o.to_session_id o.to_agent_name m,
                ))
          | inr other ↦ omega (
            arith,
            bounded session agent,
            count-elsewhere session agent m other,
            enforce_inbox_cap-le session agent s.inbox_cap o.to_session_id o.to_agent_name
                s.messages,
          )
        ])

  send_transaction-IsBounded :
      0 < s.inbox_cap → IsBounded s → IsBounded (send_transaction o now message_id fresh s).1
  unfolding send_transaction pending_count
  send_transaction-IsBounded pos bounded session agent =
      elim (Bool-cases (any (has_id message_id) room)) [
        | inl taken ↦ rw taken (bounded session agent)
        | inr free ↦ rw free (
            omega (
              arith,
              insert-le session agent pos bounded,
              flip_question-le session agent o.in_reply_to now
                  (room ++ new_message o now message_id fresh ∷ []),
            ))
      ]

  -- `send` keeps the bound for every recipient, whether it returns a message or raises.
  pub send-IsBounded : 0 < s.inbox_cap → IsBounded s → IsBounded (send o now message_id fresh s).1
  unfolding send
  send-IsBounded pos bounded session agent =
      ground (arith, bounded session agent, send_transaction-IsBounded pos bounded session agent)

-- Delivery only lowers the counts.
pub mark_delivered-IsBounded :
    (ids : List String) (now : String) (s : Store)
    → IsBounded s
    → IsBounded (mark_delivered ids now s).1
unfolding mark_delivered pending_count
mark_delivered-IsBounded ids now s bounded session agent = omega (
  arith,
  bounded session agent,
  deliver-le session agent (select (λ i. not (is_empty i)) ids) now s.messages,
)

claim_first-IsBounded :
    (now : String) (found : List Message) (s : Store)
    → IsBounded s
    → IsBounded (claim_first now found s).1
unfolding pending_count
claim_first-IsBounded now [] s bounded = bounded
claim_first-IsBounded now (m ∷ _) s bounded = λ session agent.
    omega (arith, bounded session agent, deliver-le session agent (m.id ∷ []) now s.messages)

pub claim_reply-IsBounded :
    (session agent correlation now : String) (s : Store)
    → IsBounded s
    → IsBounded (claim_reply session agent correlation now s).1
unfolding claim_reply
claim_reply-IsBounded session agent correlation now s bounded =
    claim_first-IsBounded now _ s bounded
