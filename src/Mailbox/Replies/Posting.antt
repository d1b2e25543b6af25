-- ===== src/Mailbox/Replies/Posting.antt =====
-- `send` of src/feather/storage/agent_message_store.py: which messages it accepts, and as what.
use feather_os.Prelude.{
  ℕ, ◌≡◌, refl, sym, ◌∙◌, String, true, false, ◌||◌, ◌⊎◌, inl, inr, Option, none, some, List, [],
  ◌∷◌, ◌++◌, map, arith, if◌then◌else◌, Bool, Bool-cases, is_empty, strip, any, update, str_eq_iff,
  select, order_by, count, ltb, Result, ok, err, Error, &&-eq_true,
}
use feather_os.Mailbox.{
  Message, Store, Outgoing, pending, responded, has_id, expire, expire_oldest, addressed,
  oldest_first, opt_eq, choose_correlation, awaits, respond, flip_question, enforce_inbox_cap,
  send_transaction, send,
}
use feather_os.Mailbox.Keys.{any-enforce_inbox_cap}
use feather_os.Mailbox.Replies.{IsSendable, outgoing, kept, send_transaction_free}

-- A message as `send` makes it: the given fields, the stripped body, a fresh correlation where a
-- response is expected under none, and the state of a message that nobody has read.
pub record IsPosted (o : Outgoing) (now message_id fresh : String) (m : Message) : Type 0 where
  pub id : m.id ≡ message_id
  pub from_session : m.from_session_id ≡ o.from_session_id
  pub from_agent : m.from_agent_name ≡ o.from_agent_name
  pub to_session : m.to_session_id ≡ o.to_session_id
  pub to_agent : m.to_agent_name ≡ o.to_agent_name
  pub body : m.body ≡ strip o.body
  pub correlation : m.correlation_id ≡ elim o.correlation_id [
    | none ↦ (if o.expects_response then some fresh else none)
    | some c ↦ some c
  ]
  pub reply : m.in_reply_to ≡ o.in_reply_to
  pub expects : m.expects_response ≡ o.expects_response
  pub unread : m.status ≡ pending
  pub created : m.created_at ≡ now
  pub undelivered : m.delivered_at ≡ none
  pub unanswered : m.responded_at ≡ none

-- A message without what happens to it after it was sent.
abbrev pub sealed : Message → Message
sealed m = record m { status = pending; delivered_at = none; responded_at = none }

-- The guards of `send`.
abbrev pub is_refused : Outgoing → String → Store → Bool
is_refused o message_id s =
    is_empty (strip o.body)
    || (is_empty o.from_session_id
        || (is_empty o.from_agent_name
            || (is_empty o.to_session_id
                || (is_empty o.to_agent_name || any (has_id message_id) s.messages))))

-- What a call of `send` comes to.
pub data Verdict (o : Outgoing) (now message_id fresh : String) (s : Store)
    : Result Message × Store → Type 0 where
  refused :
      (e : Error) → is_refused o message_id s ≡ true → Verdict o now message_id fresh s (err e, s)
  posted :
      (m last : Message) (rows : List Message)
      → IsSendable o
      → any (has_id message_id) s.messages ≡ false
      → IsPosted o now message_id fresh m
      → (last ≡ m)
        ⊎ ((last ≡ record m { status = responded; responded_at = some now })
            × (m.in_reply_to ≡ m.correlation_id))
      → map sealed rows ≡ map sealed s.messages
      → Verdict o now message_id fresh s (ok m, record s { messages = rows ++ last ∷ [] })

abbrev letters : List Message → List Message
letters = map sealed

letters-update :
    (p : Message → Bool) (f : Message → Message) (rows : List Message)
    → ((m : Message) → sealed (f m) ≡ sealed m)
    → letters (update p f rows) ≡ letters rows
letters-update p f [] keep = refl
letters-update p f (x ∷ rows) keep = elim (Bool-cases (p x)) [
  | inl t ↦ rw (t, keep x, letters-update p f rows keep)
  | inr t ↦ rw (t, letters-update p f rows keep)
]

letters-expire_oldest : (l rows : List Message) → letters (expire_oldest l rows) ≡ letters rows
letters-expire_oldest [] rows = refl
letters-expire_oldest (o ∷ l) rows = letters-update (has_id o.id) expire rows (λ m. refl)

letters-enforce_inbox_cap :
    (cap : ℕ) (session agent : String) (rows : List Message)
    → letters (enforce_inbox_cap cap session agent rows) ≡ letters rows
unfolding enforce_inbox_cap
letters-enforce_inbox_cap cap session agent rows =
    elim (Bool-cases (ltb (count (addressed session agent) rows) cap)) [
      | inl t ↦ rw t
      | inr f ↦ rw f (
          letters-expire_oldest (order_by oldest_first (select (addressed session agent) rows))
            rows)
    ]

update-snoc :
    (p : Message → Bool) (f : Message → Message) (rows : List Message) (m : Message)
    → update p f (rows ++ m ∷ []) ≡ update p f rows ++ (if p m then f m else m) ∷ []
update-snoc p f [] m = refl
update-snoc p f (x ∷ rows) m = rw (update-snoc p f rows m)

opt_eq-some : (o : Option String) (c : String) → opt_eq o c ≡ true → some c ≡ o
opt_eq-some none c h = elim (Bool-cases true) [ inl t ↦ cc | inr t ↦ cc ]
opt_eq-some (some d) c h = let same : d ≡ c = (str_eq_iff d c).0 h in cc

-- The new message at the end of the table, once the question was closed.
abbrev IsLast : String → Message → Message → Type 0
IsLast now m last =
    (last ≡ m)
    ⊎ ((last ≡ record m { status = responded; responded_at = some now })
        × (m.in_reply_to ≡ m.correlation_id))

flip_question-snoc :
    (r : Option String) (now : String) (rows : List Message) (m : Message)
    → r ≡ m.in_reply_to
    → (rows' : List Message) × (last : Message) × (flip_question r now (rows ++ m ∷ [])
        ≡ rows' ++ last ∷ [])
      × (letters rows' ≡ letters rows)
      × IsLast now m last
flip_question-snoc none now rows m e = (rows, m, refl, refl, inl refl)
flip_question-snoc (some c) now rows m e = elim (Bool-cases (is_empty c)) [
  | inl t ↦ rw t (rows, m, refl, refl, inl refl)
  | inr t ↦ rw t (
    update (awaits c) (respond now) rows,
    (if awaits c m then respond now m else m),
    update-snoc (awaits c) (respond now) rows m,
    letters-update (awaits c) (respond now) rows (λ x. refl),
    elim (Bool-cases (awaits c m)) [
      | inl a ↦ rw a (inr (refl, sym e ∙ opt_eq-some m.correlation_id c (&&-eq_true _ _ a).0))
      | inr n ↦ rw n (inl refl)
    ],
  )
]

chosen :
    (expects : Bool) (given : Option String) (fresh : String)
    → choose_correlation expects given fresh
      ≡ elim given [ none ↦ (if expects then some fresh else none) | some c ↦ some c ]
chosen true none fresh = refl
chosen true (some c) fresh = refl
chosen false none fresh = refl
chosen false (some c) fresh = refl

module _ (o : Outgoing) (now message_id fresh : String) (s : Store) where
  outgoing-IsPosted : IsPosted o now message_id fresh (outgoing o now message_id fresh s)
  outgoing-IsPosted = record {
    id = refl;
    from_session = refl;
    from_agent = refl;
    to_session = refl;
    to_agent = refl;
    body = refl;
    correlation = chosen o.expects_response o.correlation_id fresh;
    reply = refl;
    expects = refl;
    unread = refl;
    created = refl;
    undelivered = refl;
    unanswered = refl;
  }

  accepted :
      IsSendable o
      → any (has_id message_id) s.messages ≡ false
      → Verdict o now message_id fresh s (send o now message_id fresh s)
  unfolding send
  accepted v free =
      let m = outgoing o now message_id fresh s in
      let (rows, last, e, same, ends) =
        flip_question-snoc o.in_reply_to now (kept o now message_id fresh s) m refl in
      rw v.body (
        rw v.sender (
          rw v.recipient (
            rw (send_transaction_free o now message_id fresh s free) (
              rw e (
                posted m last rows v free outgoing-IsPosted ends (
                  same
                  ∙ letters-enforce_inbox_cap s.inbox_cap o.to_session_id o.to_agent_name
                      s.messages))))))

  -- `send` raises exactly if the stripped body or a part of an address is empty, or the id is
  -- taken, and then writes nothing, though the inbox be full. Otherwise it returns the message with
  -- the given addresses, the stripped body, the given correlation or, where a response is expected
  -- under none, a fresh one, as pending. It removes no row, changes no row but in its status and its
  -- times, and appends that message, which it closes at once only if the message answers the
  -- correlation that it asks under.
  pub send_lem : Verdict o now message_id fresh s (send o now message_id fresh s)
  unfolding send send_transaction
  send_lem = elim (Bool-cases (is_empty (strip o.body))) [
    | inl b ↦ rw b (refused _ (ground (arith, b)))
    | inr b ↦ elim (Bool-cases (is_empty o.from_session_id || is_empty o.from_agent_name)) [
      | inl f ↦ rw b (rw f (refused _ (ground (arith, f))))
      | inr f ↦ elim (Bool-cases (is_empty o.to_session_id || is_empty o.to_agent_name)) [
        | inl t ↦ rw b (rw f (rw t (refused _ (ground (arith, t)))))
        | inr t ↦ elim (Bool-cases (any (has_id message_id) s.messages)) [
          | inl i ↦
              let taken =
                any-enforce_inbox_cap message_id s.inbox_cap o.to_session_id o.to_agent_name
                  s.messages
                ∙ i in
              rw b (rw f (rw t (rw taken (refused _ (ground (arith, i))))))
          | inr free ↦ accepted (record { body = b; sender = f; recipient = t }) free
        ]
      ]
    ]
  ]
