-- ===== src/Mailbox/Delivery/Claims.antt =====
-- `claim_reply` of src/feather/storage/agent_message_store.py: the oldest answer, and the rows after it
-- was claimed.
use feather_os.Prelude.{
  ◌&&◌, if◌then◌else◌, ◌≡◌, refl, sym, subst, String, true, false, ◌⊎◌, inl, inr, Option, none,
  some, List, [], ◌∷◌, map, Bool-cases, str_eq, take, select, update, In, In-select, select-In,
  All-In, order_by, In-order_by, order_by-In, IsSorted, IsOrder, order_by-IsSorted, then_by-IsOrder,
  asc_text-IsOrder,
}
use feather_os.Mailbox.{
  delivered, Message, Store, oldest_first, is_pending, pending_among, deliver, replies_to,
  claim_reply, claim_first,
}

pub oldest_first-IsOrder : IsOrder oldest_first
oldest_first-IsOrder = then_by-IsOrder (asc_text-IsOrder _) (asc_text-IsOrder _)

-- A row after the message `i` was claimed at `now`.
abbrev pub taken_row : String → String → Message → Message
taken_row i now x =
    if str_eq x.id i && is_pending x.status
    then record x { status = delivered; delivered_at = some now }
    else x

pub taken_rows :
    (i now : String) (rows : List Message)
    → update (pending_among (i ∷ [])) (deliver now) rows ≡ map (taken_row i now) rows
taken_rows i now [] = refl
taken_rows i now (x ∷ rows) = elim (Bool-cases (str_eq x.id i)) [
  | inl t ↦ rw (t, taken_rows i now rows)
  | inr f ↦ rw (f, taken_rows i now rows)
]

module _ (session agent correlation now : String) (s : Store) where
  abbrev answers : List Message
  answers = select (replies_to session agent correlation) s.messages

  listed :
      (m : Message)
      → In m s.messages
      → replies_to session agent correlation m ≡ true
      → In m (order_by oldest_first answers)
  listed m i t = order_by-In oldest_first m answers (select-In _ m s.messages i t)

  oldest_first_refl : (m : Message) → oldest_first m m ≡ true
  oldest_first_refl m = elim (oldest_first-IsOrder.total m m) [ inl t ↦ t | inr t ↦ t ]

  -- The same over the sorted answers, split on whether there is one.
  claim_cases :
      (l : List Message)
      → order_by oldest_first answers ≡ l
      → ((claim_first now (take 1 l) s ≡ (none, s))
          × ((m : Message) → In m s.messages → replies_to session agent correlation m ≡ false))
        ⊎ ((m : Message) × In m s.messages
            × (replies_to session agent correlation m ≡ true)
            × ((x : Message)
                → In x s.messages
                → replies_to session agent correlation x ≡ true
                → oldest_first m x ≡ true)
            × (claim_first now (take 1 l) s ≡ claim_first now (m ∷ []) s))
  claim_cases [] e = inl (
    refl,
    λ m i. elim (Bool-cases (replies_to session agent correlation m)) [
      | inl t ↦ absurd (rw e at (listed m i t))
      | inr f ↦ f
    ],
  )
  claim_cases (m ∷ l) e =
      let sorted =
        subst (IsSorted oldest_first) e
          (order_by-IsSorted oldest_first oldest_first-IsOrder answers) in
      let (here, fits) =
        In-select _ m s.messages
          (In-order_by oldest_first m answers (subst (In m) (sym e) (inl refl))) in
      inr (
        m,
        here,
        fits,
        λ x i t. elim (subst (In x) e (listed x i t)) [
          | inl p ↦ rw p (oldest_first_refl m)
          | inr q ↦ All-In (λ y. oldest_first m y ≡ true) x l sorted.0 q
        ],
        refl,
      )

  abbrev claim : Option Message × Store
  claim = claim_reply session agent correlation now s

  pub oldest_answer :
      ((claim ≡ (none, s))
        × ((m : Message) → In m s.messages → replies_to session agent correlation m ≡ false))
      ⊎ ((m : Message) × In m s.messages
          × (replies_to session agent correlation m ≡ true)
          × ((x : Message)
              → In x s.messages
              → replies_to session agent correlation x ≡ true
              → oldest_first m x ≡ true)
          × (claim ≡ claim_first now (m ∷ []) s))
  unfolding claim_reply
  oldest_answer = claim_cases (order_by oldest_first answers) refl
