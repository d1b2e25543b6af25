-- ===== src/Sessions/Batches.antt =====
-- src/feather/storage/session_store.py, `list_attachments_for_messages`: the batch against the single
-- queries.
use feather_os.Prelude.{
  String, ◌≡◌, refl, sym, ap, ◌∙◌, Bool, true, false, List, [], ◌∷◌, ◌++◌, inl, inr, Bool-cases,
  if◌then◌else◌, str_eq, str_eq_iff, arith, select, update, any, has_key, fetch, fetch-update,
  fetch-snoc, fetch_missing, fetch_total, none, some, select-append, append_none, append_assoc,
  IsOrder, asc_text-IsOrder, then_by-IsOrder, order_by, select-order_by,
}
use feather_os.Sessions.Records.{Attachment, Db}
use feather_os.Sessions.Messages.{by_creation, list_message_attachments}
use feather_os.Sessions.Rendering.{
  Group, group_key, grown, put_into, group_rows, is_asked, list_attachments_for_messages, group_of,
}

abbrev is_of : String → Attachment → Bool
is_of message_id a = str_eq a.message_id message_id

by_creation-IsOrder : IsOrder by_creation
by_creation-IsOrder = then_by-IsOrder (asc_text-IsOrder _) (asc_text-IsOrder _)

-- The group of an id that has one grows at its end; an id that has none gets a group.
group_of-update :
    (k : String) (a : Attachment) (groups : List Group)
    → any (has_key group_key a.message_id) groups ≡ true
    → group_of k (update (has_key group_key a.message_id) (grown a) groups)
      ≡ group_of k groups ++ select (is_of k) (a ∷ [])
group_of-update k a groups t =
    let (g, found) = fetch_total group_key a.message_id groups t in
    elim (Bool-cases (str_eq a.message_id k)) [
      | inl same ↦
          let e = (str_eq_iff a.message_id k).0 same in
          let here : fetch group_key k groups ≡ some g =
            ap (λ i. fetch group_key i groups) (sym e) ∙ found in
          rw (fetch-update group_key a.message_id k (grown a) groups (λ x. refl))
            (rw (same, here) refl)
      | inr other ↦
          rw (fetch-update group_key a.message_id k (grown a) groups (λ x. refl))
            (rw other (sym (append_none (group_of k groups))))
    ]

group_of-new :
    (k : String) (a : Attachment) (groups : List Group)
    → any (has_key group_key a.message_id) groups ≡ false
    → group_of k (groups ++ record { message_id = a.message_id; attachments = a ∷ [] } ∷ [])
      ≡ group_of k groups ++ select (is_of k) (a ∷ [])
group_of-new k a groups f =
    let row : Group = record { message_id = a.message_id; attachments = a ∷ [] } in
    elim (Bool-cases (str_eq a.message_id k)) [
      | inl same ↦
          let e = (str_eq_iff a.message_id k).0 same in
          let missing : fetch group_key k groups ≡ none =
            ap (λ i. fetch group_key i groups) (sym e)
            ∙ fetch_missing group_key a.message_id groups f in
          rw (fetch-snoc group_key k row groups f) (rw (same, missing) refl)
      | inr other ↦
          rw (fetch-snoc group_key k row groups f)
            (rw other (sym (append_none (group_of k groups))))
    ]

group_of-put_into :
    (k : String) (a : Attachment) (groups : List Group)
    → group_of k (put_into a groups) ≡ group_of k groups ++ select (is_of k) (a ∷ [])
group_of-put_into k a groups = elim (Bool-cases (any (has_key group_key a.message_id) groups)) [
  | inl t ↦ rw t (group_of-update k a groups t)
  | inr f ↦ rw f (group_of-new k a groups f)
]

group_of-group_rows :
    (k : String) (rows : List Attachment) (groups : List Group)
    → group_of k (group_rows rows groups) ≡ group_of k groups ++ select (is_of k) rows
group_of-group_rows k [] groups = sym (append_none (group_of k groups))
group_of-group_rows k (a ∷ rows) groups =
    group_of-group_rows k rows (put_into a groups)
    ∙ ap (λ l. l ++ select (is_of k) rows) (group_of-put_into k a groups)
    ∙ append_assoc (group_of k groups) (select (is_of k) (a ∷ [])) (select (is_of k) rows)
    ∙ ap (λ l. group_of k groups ++ l) (sym (select-append (is_of k) (a ∷ []) rows))

module _ (message_ids : List String) (k : String) where
  -- The rows of an id that was asked for are all asked for, those of another are none of them.
  select-is_asked :
      (rows : List Attachment)
      → select (is_of k) (select (is_asked message_ids) rows)
        ≡ (if any (str_eq k) message_ids then select (is_of k) rows else [])
  select-is_asked [] = ground arith
  select-is_asked (a ∷ rows) =
      let rest = select-is_asked rows in
      elim (Bool-cases (str_eq a.message_id k)) [
        | inl same ↦
            let e = (str_eq_iff a.message_id k).0 same in
            let alike : is_asked message_ids a ≡ any (str_eq k) message_ids =
              ap (λ i. any (str_eq i) message_ids) e in
            elim (Bool-cases (any (str_eq k) message_ids)) [
              | inl t ↦ rw (alike, t) (rw (same, rest, t) refl)
              | inr f ↦ rw (alike, f) (rest ∙ rw f refl)
            ]
        | inr other ↦ elim (Bool-cases (is_asked message_ids a)) [
          | inl t ↦ rw (t, other) rest
          | inr f ↦ rw (f, other) rest
        ]
      ]

-- The group of an id in the batch has the attachments of that message in the order of the single
-- query, if the id is asked for; otherwise the batch has none for it.
pub list_attachments_for_messages_lem :
    (message_ids : List String) (k : String) (db : Db)
    → group_of k (list_attachments_for_messages message_ids db)
      ≡ (if any (str_eq k) message_ids then list_message_attachments k db else [])
unfolding list_attachments_for_messages list_message_attachments order_by
list_attachments_for_messages_lem message_ids k db =
    let asked = select (is_asked message_ids) db.attachments in
    let reads : group_of k (group_rows (order_by by_creation asked) [])
        ≡ order_by by_creation
            (if any (str_eq k) message_ids then select (is_of k) db.attachments else []) =
      group_of-group_rows k (order_by by_creation asked) []
      ∙ select-order_by by_creation by_creation-IsOrder (is_of k) asked
      ∙ ap (order_by by_creation) (select-is_asked message_ids k db.attachments) in
    reads ∙ elim (Bool-cases (any (str_eq k) message_ids)) [ inl t ↦ rw t refl | inr f ↦ rw f refl ]
