-- ===== src/Mailbox/History.antt =====
-- Any sequence of calls on the mailbox, by any number of agents: the calls are transactions, so
-- what concurrent writers do is some order of them.
use feather_os.Prelude.{
  IsKeyed, IsKeyed-snoc, IsKeyed-update, ◌<◌, ◌≡◌, refl, String, ◌||◌, inl, inr, List, [], ◌∷◌,
  ◌++◌, Bool-cases, is_empty, strip, any, select, not, update,
}
use feather_os.Mailbox.{
  Message, Store, Outgoing, has_id, enforce_inbox_cap, new_message, flip_question, send_transaction,
  send, mark_delivered, claim_first, claim_reply, pending_among, deliver,
}
use feather_os.Mailbox.Bounds.{
  IsBounded, send-IsBounded, mark_delivered-IsBounded, claim_reply-IsBounded,
}
use feather_os.Mailbox.Keys.{message_key, enforce_inbox_cap-IsKeyed, flip_question-IsKeyed}
use feather_os.Mailbox.Lifecycle.{
  Evolves, Evolves-refl, Evolves-trans, Evolves-append, enforce_inbox_cap-Evolves,
  flip_question-Evolves, deliver-Evolves,
}

-- `__init__` refuses a cap of 0.
pub record IsValid (s : Store) : Type 0 where
  pub positive : 0 < s.inbox_cap
  pub bounded : IsBounded s
  pub keyed : IsKeyed message_key s.messages

-- One call that writes; reads leave the store as it is.
pub data Step (s : Store) : Store → Type 0 where
  sent : (o : Outgoing) (now message_id fresh : String) → Step s (send o now message_id fresh s).1
  marked : (ids : List String) (now : String) → Step s (mark_delivered ids now s).1
  claimed :
      (session agent correlation now : String)
      → Step s (claim_reply session agent correlation now s).1

pub data Reach (s : Store) : Store → Type 0 where
  here : Reach s s
  next : {t u : Store} → Reach s t → Step t u → Reach s u

-- What a step owes to the table it found.
record Goes (s t : Store) : Type 0 where
  cap : t.inbox_cap ≡ s.inbox_cap
  keyed : IsKeyed message_key t.messages
  evolves : Evolves s.messages t.messages

Goes-refl : (s : Store) → IsKeyed message_key s.messages → Goes s s
Goes-refl s k = record { cap = refl; keyed = k; evolves = Evolves-refl s.messages }

module _ (o : Outgoing) (now message_id fresh : String) (s : Store)
    (k : IsKeyed message_key s.messages) where
  abbrev room : List Message
  room = enforce_inbox_cap s.inbox_cap o.to_session_id o.to_agent_name s.messages

  abbrev added : List Message
  added = room ++ new_message o now message_id fresh ∷ []

  send_transaction-Goes : Goes s (send_transaction o now message_id fresh s).1
  unfolding send_transaction
  send_transaction-Goes = elim (Bool-cases (any (has_id message_id) room)) [
    | inl taken ↦ rw taken (Goes-refl s k)
    | inr free ↦ rw free (record {
      cap = refl;
      keyed = flip_question-IsKeyed o.in_reply_to now added (
          IsKeyed-snoc message_key (new_message o now message_id fresh) room
            (enforce_inbox_cap-IsKeyed s.inbox_cap o.to_session_id o.to_agent_name s.messages k)
            free);
      evolves =
          Evolves-trans s.messages room (flip_question o.in_reply_to now added)
            (enforce_inbox_cap-Evolves s.inbox_cap o.to_session_id o.to_agent_name s.messages k)
            (Evolves-trans room added _ (Evolves-append room _)
              (flip_question-Evolves o.in_reply_to now added));
    })
  ]

  send-Goes : Goes s (send o now message_id fresh s).1
  unfolding send
  send-Goes = elim (Bool-cases (is_empty (strip o.body))) [
    | inl t ↦ rw t (Goes-refl s k)
    | inr f ↦ rw f (elim (Bool-cases (is_empty o.from_session_id || is_empty o.from_agent_name)) [
      | inl t ↦ rw t (Goes-refl s k)
      | inr f ↦ rw f (elim (Bool-cases (is_empty o.to_session_id || is_empty o.to_agent_name)) [
        | inl t ↦ rw t (Goes-refl s k)
        | inr f ↦ rw f send_transaction-Goes
      ])
    ])
  ]

deliver-Goes :
    (ids : List String) (now : String) (s : Store)
    → IsKeyed message_key s.messages
    → Goes s (record s { messages = update (pending_among ids) (deliver now) s.messages })
deliver-Goes ids now s k = record {
  cap = refl;
  keyed = IsKeyed-update message_key (pending_among ids) (deliver now) (λ m. refl) s.messages k;
  evolves = deliver-Evolves ids now s.messages;
}

claim_first-Goes :
    (now : String) (found : List Message) (s : Store)
    → IsKeyed message_key s.messages
    → Goes s (claim_first now found s).1
claim_first-Goes now [] s k = Goes-refl s k
claim_first-Goes now (m ∷ _) s k = deliver-Goes (m.id ∷ []) now s k

Step-Goes : {s t : Store} → Step s t → IsKeyed message_key s.messages → Goes s t
unfolding mark_delivered claim_reply
Step-Goes {s} (sent o now message_id fresh) k = send-Goes o now message_id fresh s k
Step-Goes {s} (marked ids now) k = deliver-Goes (select (λ i. not (is_empty i)) ids) now s k
Step-Goes {s} (claimed session agent correlation now) k = claim_first-Goes now _ s k

Step-IsBounded : {s t : Store} → Step s t → 0 < s.inbox_cap → IsBounded s → IsBounded t
Step-IsBounded {s} (sent o now message_id fresh) pos b =
    send-IsBounded o now message_id fresh s pos b
Step-IsBounded {s} (marked ids now) pos b = mark_delivered-IsBounded ids now s b
Step-IsBounded {s} (claimed session agent correlation now) pos b =
    claim_reply-IsBounded session agent correlation now s b

-- After any calls on a valid store, every recipient still has at most `inbox_cap` pending messages,
-- and no two messages have one id.
pub Reach-IsValid : {s t : Store} → IsValid s → Reach s t → IsValid t
Reach-IsValid v here = v
Reach-IsValid v (next {t = t} r st) =
    let w = Reach-IsValid v r in
    let g = Step-Goes st w.keyed in
    record {
      positive = rw g.cap w.positive;
      bounded = Step-IsBounded st w.positive w.bounded;
      keyed = g.keyed;
    }

-- After any calls on a valid store, every message is still at its place in the table, with the
-- sender, recipient, body, correlation and creation time that it had, and with a status that the
-- life of a message allows after the one it had: an answered or expired message never changes
-- again, and a delivered one is never pending or expired.
pub Reach-Evolves : {s t : Store} → IsValid s → Reach s t → Evolves s.messages t.messages
Reach-Evolves {s} v here = Evolves-refl s.messages
Reach-Evolves {s} v (next {t = t} {u = u} r st) =
    Evolves-trans s.messages t.messages u.messages (Reach-Evolves v r)
      (Step-Goes st (Reach-IsValid v r).keyed).evolves
