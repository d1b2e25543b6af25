-- ===== src/Mailbox/Delivery.antt =====
-- What a recipient reads, and how reading empties its inbox.
pub mod Claims
use feather_os.Prelude.{
  ◌&&◌, if◌then◌else◌, ℕ, ◌≤◌, min, ◌≡◌, ◌≢◌, refl, sym, ap, ◌∙◌, subst, String, true, false, ◌⊎◌,
  inl, inr, Option, none, some, List, [], ◌∷◌, map, arith, Bool-cases, str_eq, str_eq_refl,
  str_eq_iff, is_empty, not, length, take, select, update, any, In, In-take, In-select, select-In,
  All, All-In, length-take, take_all, length-select, count-update_zero, In-update, order_by,
  In-order_by, order_by-In, length-order_by, IsSorted, IsOrder, take-IsSorted, order_by-IsSorted,
  take_before, then_by-IsOrder, asc_text-IsOrder, &&-eq_true,
}
use feather_os.Mailbox.{
  delivered, Message, Store, addressed, oldest_first, is_pending, pending_count, inbox,
  effective_limit, mark_delivered, pending_among, deliver, replies_to, claim_reply, claim_first,
}
use feather_os.Mailbox.Bounds.{IsBounded}
pub use feather_os.Mailbox.Delivery.Claims.{oldest_first-IsOrder, taken_row}
use feather_os.Mailbox.Delivery.Claims.{taken_rows, oldest_answer}

module _ (session agent : String) (s : Store) where
  abbrev waiting : List Message
  waiting = select (addressed session agent) s.messages

  abbrev queue : List Message
  queue = order_by oldest_first waiting

  -- `inbox` lists pending messages of the recipient only, sorted by creation time and id, as many
  -- as the limit allows; a pending message of the recipient that it leaves out is no older than any
  -- that it lists.
  pub inbox_lem :
      (limit : Option ℕ)
      → IsSorted oldest_first (inbox session agent limit s)
        × (length (inbox session agent limit s)
            ≡ min (effective_limit s.inbox_cap limit) (pending_count session agent s))
        × ((m : Message)
            → In m (inbox session agent limit s)
            → In m s.messages × (addressed session agent m ≡ true))
        × ((m : Message)
            → In m s.messages
            → addressed session agent m ≡ true
            → In m (inbox session agent limit s)
              ⊎ All (λ x. oldest_first x m ≡ true) (inbox session agent limit s))
  unfolding inbox pending_count
  inbox_lem limit =
      let n = effective_limit s.inbox_cap limit in
      let sorted = order_by-IsSorted oldest_first oldest_first-IsOrder waiting in
      (
        take-IsSorted oldest_first n queue sorted,
        length-take n queue
            ∙ ap (min n) (
                length-order_by oldest_first waiting
                ∙ length-select (addressed session agent) s.messages),
        λ m i. In-select _ m s.messages (In-order_by oldest_first m waiting (In-take m n queue i)),
        λ m i a.
            take_before oldest_first n m queue sorted
              (order_by-In oldest_first m waiting (select-In _ m s.messages i a)),
      )

  -- With the cap kept, the default limit leaves nothing out.
  inbox_default : pending_count session agent s ≤ s.inbox_cap → inbox session agent none s ≡ queue
  unfolding inbox pending_count
  inbox_default h = take_all s.inbox_cap queue (
      omega (
        arith,
        length-order_by oldest_first waiting,
        length-select (addressed session agent) s.messages,
      ))

any_id_map :
    (m : Message) (l : List Message)
    → In m l
    → is_empty m.id ≡ false
    → any (λ i. str_eq m.id i) (select (λ i. not (is_empty i)) (map (λ (x : Message). x.id) l))
      ≡ true
any_id_map m [] i n = elim i [ ]
any_id_map m (x ∷ l) (inl e) n = rw (← ap (λ (y : Message). y.id) e) (rw n (rw (str_eq_refl m.id)))
any_id_map m (x ∷ l) (inr i) n = ground (arith, any_id_map m l i n)

-- One round of the agent loop, reading the inbox and marking what was read, leaves the recipient
-- with no pending message, provided its inbox was within the cap and no message has an empty id.
pub inbox-mark_delivered :
    (session agent now : String) (s : Store)
    → IsBounded s
    → All (λ (m : Message). is_empty m.id ≡ false) s.messages
    → pending_count session agent
        (mark_delivered (map (λ (m : Message). m.id) (inbox session agent none s)) now s).1
      ≡ 0
unfolding pending_count mark_delivered
inbox-mark_delivered session agent now s bounded named =
    rw (inbox_default session agent s (bounded session agent)) (
      count-update_zero _ (addressed session agent) (deliver now) s.messages λ m i.
        elim (Bool-cases (addressed session agent m)) [
          | inl a ↦
              let read : In m (queue session agent s) =
                order_by-In oldest_first m (waiting session agent s)
                  (select-In _ m s.messages i a) in
              let n = All-In (λ (x : Message). is_empty x.id ≡ false) m s.messages named i in
              ground (arith, any_id_map m (queue session agent s) read n)
          | inr f ↦ ground arith
        ])

module _ (session agent correlation now : String) (s : Store) where
  -- `claim_reply` returns None exactly if no pending message of the recipient answers the
  -- correlation, and then writes nothing. Otherwise it takes the oldest such message: it returns
  -- that message with the status `delivered` and the time of the claim, writes both into the
  -- pending rows of its id, and leaves every other row and the cap as they were.
  pub claim_reply_lem :
      ((claim_reply session agent correlation now s ≡ (none, s))
        × ((m : Message) → In m s.messages → replies_to session agent correlation m ≡ false))
      ⊎ ((m : Message) × In m s.messages
          × (replies_to session agent correlation m ≡ true)
          × ((x : Message)
              → In x s.messages
              → replies_to session agent correlation x ≡ true
              → oldest_first m x ≡ true)
          × ((claim_reply session agent correlation now s).0
              ≡ some (record m { status = delivered; delivered_at = some now }))
          × ((claim_reply session agent correlation now s).1
              ≡ record s { messages = map (taken_row m.id now) s.messages }))
  claim_reply_lem = elim (oldest_answer session agent correlation now s) [
    | inl unanswered ↦ inl unanswered
    | inr (m, here, fits, oldest, e) ↦ inr (
      m,
      here,
      fits,
      oldest,
      ap (λ (r : Option Message × Store). r.0) e,
      ap (λ (r : Option Message × Store). r.1) e
          ∙ ap (λ rows. record s { messages = rows }) (taken_rows m.id now s.messages),
    )
  ]

-- After the update that delivers `i`, no pending row has that id.
delivered_once :
    (i now : String) (rows : List Message) (m : Message)
    → In m (update (pending_among (i ∷ [])) (deliver now) rows)
    → is_pending m.status ≡ true
    → m.id ≢ i
delivered_once i now rows m here pending same =
    let (x, _, e) = In-update _ (deliver now) m rows here in
    elim (Bool-cases (pending_among (i ∷ []) x)) [
      | inl t ↦ ground (arith, ap (λ (y : Message). is_pending y.status) (rw t at e))
      | inr f ↦
          let back = rw f at e in
          ground (
            arith,
            (str_eq_iff x.id i).1,
            ap (λ (y : Message). y.id) back,
            ap (λ (y : Message). is_pending y.status) back,
          )
    ]

-- A message is claimed at most once: whatever is claimed after it, by any agent, has another id.
pub claim_reply_once :
    (session agent correlation now session' agent' correlation' now' : String) (s : Store)
    (m m' : Message)
    → (claim_reply session agent correlation now s).0 ≡ some m
    → (claim_reply session' agent' correlation' now'
        (claim_reply session agent correlation now s).1).0
      ≡ some m'
    → m'.id ≢ m.id
claim_reply_once session agent correlation now session' agent' correlation' now' s m m' e e' =
    let after = (claim_reply session agent correlation now s).1 in
    elim (oldest_answer session agent correlation now s) [
      | inl (q, _) ↦ cc (ap (λ (r : Option Message × Store). r.0) q)
      | inr (x, _, _, _, q) ↦ elim (oldest_answer session' agent' correlation' now' after) [
        | inl (q', _) ↦ cc (ap (λ (r : Option Message × Store). r.0) q')
        | inr (x', here, fits, _, q') ↦
            let first : some (deliver now x) ≡ some m =
              sym (ap (λ (r : Option Message × Store). r.0) q) ∙ e in
            let second : some (deliver now' x') ≡ some m' =
              sym (ap (λ (r : Option Message × Store). r.0) q') ∙ e' in
            let row : In x' (update (pending_among (x.id ∷ [])) (deliver now) s.messages) =
              subst (λ (r : Option Message × Store). In x' r.1.messages) q here in
            let pending = (&&-eq_true _ _ (&&-eq_true _ _ (&&-eq_true _ _ fits).0).1).1 in
            λ same.
              delivered_once x.id now s.messages x' row pending
                (id_of second ∙ same ∙ sym (id_of first))
      ]
    ]
  where
    id_of : {a b : Message} → some a ≡ some b → a.id ≡ b.id
    id_of p = cc
