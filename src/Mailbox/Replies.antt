-- ===== src/Mailbox/Replies.antt =====
-- `send`: what a refused and an accepted call leave, and how a reply closes the question.
pub mod Posting
use feather_os.Prelude.{
  ◌≡◌, refl, sym, ap, ◌∙◌, subst, String, false, ◌||◌, inl, inr, Option, none, some, List, [], ◌∷◌,
  ◌++◌, arith, if◌then◌else◌, Bool-cases, is_empty, strip, any, update, In, In-append_right,
  In-update, update-In, ok, err, Error,
}
use feather_os.Mailbox.{
  Message, Store, Outgoing, has_id, awaits, respond, flip_question, new_message, enforce_inbox_cap,
  send_transaction, send,
}
use feather_os.Mailbox.Keys.{any-enforce_inbox_cap}

-- What `send` demands of its arguments.
pub record IsSendable (o : Outgoing) : Type 0 where
  pub body : is_empty (strip o.body) ≡ false
  pub sender : (is_empty o.from_session_id || is_empty o.from_agent_name) ≡ false
  pub recipient : (is_empty o.to_session_id || is_empty o.to_agent_name) ≡ false

flipped_closed :
    (c now : String) (x y : Message)
    → x ≡ (if awaits c y then respond now y else y)
    → awaits c x ≡ false
flipped_closed c now x y q = elim (Bool-cases (awaits c y)) [
  | inl t ↦ subst (λ z. awaits c z ≡ false) (sym (rw t at q)) (ground arith)
  | inr f ↦ subst (λ z. awaits c z ≡ false) (sym (rw f at q)) f
]

flip_question_closes :
    (r : Option String) (c now : String) (rows : List Message) (x : Message)
    → r ≡ some c
    → is_empty c ≡ false
    → In x (flip_question r now rows)
    → awaits c x ≡ false
flip_question_closes none c now rows x reply given here = cc
flip_question_closes (some d) c now rows x reply given here =
    let same : d ≡ c = cc in
    let nonempty : is_empty d ≡ false = ap is_empty same ∙ given in
    let (y, _, q) = In-update (awaits d) (respond now) x rows (rw nonempty at here) in
    subst (λ e. awaits e x ≡ false) same (flipped_closed d now x y q)

module _ (o : Outgoing) (now message_id fresh : String) (s : Store) where
  abbrev pub outgoing : Message
  outgoing = new_message o now message_id fresh

  abbrev pub kept : List Message
  kept = enforce_inbox_cap s.inbox_cap o.to_session_id o.to_agent_name s.messages

  -- `send` raises without a trace: whatever the error, the table is as it was, no message of the
  -- recipient having been dropped.
  pub send_refuses :
      (e : Error)
      → (send o now message_id fresh s).0 ≡ err e
      → (send o now message_id fresh s).1 ≡ s
  unfolding send send_transaction
  send_refuses e h = ground arith

  pub send_transaction_free :
      any (has_id message_id) s.messages ≡ false
      → send_transaction o now message_id fresh s ≡ (
        ok outgoing,
        record s { messages = flip_question o.in_reply_to now (kept ++ outgoing ∷ []) },
      )
  unfolding send_transaction
  send_transaction_free free = rw (
      any-enforce_inbox_cap message_id s.inbox_cap o.to_session_id o.to_agent_name s.messages
      ∙ free)

  pub send_inversion :
      (m : Message)
      → (send o now message_id fresh s).0 ≡ ok m
      → (m ≡ outgoing)
        × ((send o now message_id fresh s).1.messages
            ≡ flip_question o.in_reply_to now (kept ++ outgoing ∷ []))
  unfolding send send_transaction
  send_inversion m h = ground arith

  -- A message that was sent stands in the table, pending, as it was returned, unless it answers
  -- the very correlation that it asks under.
  pub send_stores :
      (m : Message)
      → (send o now message_id fresh s).0 ≡ ok m
      → ((c : String) → o.in_reply_to ≡ some c → awaits c m ≡ false)
      → In m (send o now message_id fresh s).1.messages
  send_stores m h other =
      let (e, rows) = send_inversion m h in
      rw rows (rw e (stays o.in_reply_to (λ c q. subst (λ x. awaits c x ≡ false) e (other c q))))
    where
      stays :
          (r : Option String)
          → ((c : String) → r ≡ some c → awaits c outgoing ≡ false)
          → In outgoing (flip_question r now (kept ++ outgoing ∷ []))
      stays none q = In-append_right outgoing kept (outgoing ∷ []) (inl refl)
      stays (some c) q = elim (Bool-cases (is_empty c)) [
        | inl t ↦ rw t (In-append_right outgoing kept (outgoing ∷ []) (inl refl))
        | inr f ↦ rw f (
            subst (λ x. In x (update (awaits c) (respond now) (kept ++ outgoing ∷ [])))
              (ap (λ b. if b then respond now outgoing else outgoing) (q c refl))
              (update-In (awaits c) (respond now) outgoing (kept ++ outgoing ∷ [])
                (In-append_right outgoing kept (outgoing ∷ []) (inl refl))))
      ]

  -- Once a reply was sent, no message under the correlation that it answers still awaits a
  -- response: the question is closed whether its recipient had read it or not.
  pub send_answers :
      (m : Message) (c : String)
      → (send o now message_id fresh s).0 ≡ ok m
      → o.in_reply_to ≡ some c
      → is_empty c ≡ false
      → (x : Message) → In x (send o now message_id fresh s).1.messages
      → awaits c x ≡ false
  send_answers m c h reply given x here =
      let (e, rows) = send_inversion m h in
      flip_question_closes o.in_reply_to c now (kept ++ outgoing ∷ []) x reply given
        (rw rows at here)
