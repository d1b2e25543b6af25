-- ===== src/Sessions/Appending.antt =====
-- src/feather/storage/session_store.py: what a session's history is after `add_message`.
use feather_os.Prelude.{
  String, ◌≡◌, refl, sym, ap, subst, ◌∙◌, Bool, false, List, [], ◌∷◌, ◌++◌, inl, inr, Bool-cases,
  arith, str_eq, str_eq_iff, str_eq_refl, select, any, has_key, select-append, append_none, All-map,
  All-both, All-select, IsSorted, Sub-select, Sub-All, order_by, Error, ok, err,
}
use feather_os.Sessions.Records.{SessionMessage, Db, session_key, message_key}
use feather_os.Sessions.State.{update_session_fields}
use feather_os.Sessions.Messages.{of_session, NewMessage, numbered, insert_message, add_message}
use feather_os.Sessions.Windows.{by_sequence, list_messages}
use feather_os.Sessions.Sequences.{precedes, IsNumbered, numbered-IsNumbered}

-- Sorting leaves sorted rows alone.
order_by_sorted :
    {A : Type 0} (le : A → A → Bool) (rows : List A) → IsSorted le rows → order_by le rows ≡ rows
unfolding order_by
order_by_sorted le [] s = refl
order_by_sorted le (x ∷ []) s = refl
order_by_sorted le (x ∷ y ∷ rows) s = rw (order_by_sorted le (y ∷ rows) s.1) (rw s.0.0 refl)

-- Rows of one session that rise are sorted by their numbers.
rising-IsSorted :
    (session_id : String) (rows : List SessionMessage)
    → IsSorted precedes rows
    → IsSorted by_sequence (select (of_session session_id) rows)
rising-IsSorted session_id [] s = tt
rising-IsSorted session_id (m ∷ rows) s = elim (Bool-cases (of_session session_id m)) [
  | inl t ↦ rw t (
    All-map _ _ (select (of_session session_id) rows)
        (λ n h. ground (
          arith,
          h.0,
          h.1,
          t,
          str_eq_iff m.session_id session_id,
          str_eq_iff n.session_id session_id,
          str_eq_iff m.session_id n.session_id,
        ))
        (All-both _ _ (select (of_session session_id) rows)
          (Sub-All _ (Sub-select (of_session session_id) rows) s.0)
          (All-select (of_session session_id) rows)),
    rising-IsSorted session_id rows s.1,
  )
  | inr f ↦ rw f (rising-IsSorted session_id rows s.1)
]

list_messages-IsNumbered :
    (session_id : String) (db : Db)
    → IsNumbered db.messages
    → list_messages session_id db ≡ select (of_session session_id) db.messages
unfolding list_messages
list_messages-IsNumbered session_id db v =
    order_by_sorted by_sequence _ (rising-IsSorted session_id db.messages v.rising)

-- One more row at the end.
module _ (db after : Db) (m : SessionMessage) (v : IsNumbered db.messages) where
  list_messages-snoc :
      (session_id : String)
      → after.messages ≡ db.messages ++ m ∷ []
      → IsNumbered after.messages
      → list_messages session_id after
        ≡ list_messages session_id db ++ select (of_session session_id) (m ∷ [])
  list_messages-snoc session_id grown w =
      list_messages-IsNumbered session_id after w
      ∙ ap (select (of_session session_id)) grown
      ∙ select-append (of_session session_id) db.messages (m ∷ [])
      ∙ ap (λ l. l ++ select (of_session session_id) (m ∷ []))
          (sym (list_messages-IsNumbered session_id db v))

-- What `add_message` did where it returned: a row with a free id and the next number.
pub add_message-row :
    (a : NewMessage) (message_id now touched : String) (db : Db) (m : SessionMessage)
    → (add_message a message_id now touched db).0 ≡ ok m
    → (any (has_key message_key message_id) db.messages ≡ false)
      × (numbered a message_id now db.messages ≡ m)
      × ((add_message a message_id now touched db).1.messages
          ≡ db.messages ++ numbered a message_id now db.messages ∷ [])
unfolding add_message insert_message update_session_fields
add_message-row a message_id now touched db m h =
    elim (Bool-cases (any (has_key message_key message_id) db.messages)) [
      | inl taken ↦ cc (rw taken at h)
      | inr free ↦ elim (Bool-cases (any (has_key session_key a.session_id) db.sessions)) [
        | inl known ↦
            let is : ok (numbered a message_id now db.messages) ≡ ok m = rw (free, known) at h in
            (free, cc, rw (free, known) refl)
        | inr unknown ↦ cc (rw (free, unknown) at h)
      ]
    ]

-- Where `add_message` raised, it wrote nothing.
pub add_message-raised :
    (a : NewMessage) (message_id now touched : String) (db : Db) (e : Error)
    → (add_message a message_id now touched db).0 ≡ err e
    → (add_message a message_id now touched db).1 ≡ db
unfolding add_message insert_message update_session_fields
add_message-raised a message_id now touched db e h =
    elim (Bool-cases (any (has_key message_key message_id) db.messages)) [
      | inl taken ↦ rw taken refl
      | inr free ↦ elim (Bool-cases (any (has_key session_key a.session_id) db.sessions)) [
        | inl known ↦ cc (rw (free, known) at h)
        | inr unknown ↦ rw (free, unknown) refl
      ]
    ]

-- In a store in which each message id stands once and the numbers of each session rise from 1 on, if
-- `add_message` returns a message: the history of its session is what it was with that message at
-- the end, and the history of any other session is what it was.
pub add_message-list_messages :
    (a : NewMessage) (message_id now touched : String) (db : Db) (m : SessionMessage)
    → IsNumbered db.messages
    → (add_message a message_id now touched db).0 ≡ ok m
    → (list_messages a.session_id (add_message a message_id now touched db).1
        ≡ list_messages a.session_id db ++ m ∷ [])
      × ((other : String)
          → str_eq a.session_id other ≡ false
          → list_messages other (add_message a message_id now touched db).1
            ≡ list_messages other db)
add_message-list_messages a message_id now touched db m v h =
    let (free, is, grown) = add_message-row a message_id now touched db m h in
    let after = (add_message a message_id now touched db).1 in
    let row = numbered a message_id now db.messages in
    let w : IsNumbered after.messages =
      subst IsNumbered (sym grown) (numbered-IsNumbered a message_id now db.messages free v) in
    (
      list_messages-snoc db after row v a.session_id grown w
          ∙ rw (str_eq_refl a.session_id) (ap (λ r. list_messages a.session_id db ++ r ∷ []) is),
      λ other different.
          list_messages-snoc db after row v other grown w
          ∙ rw different (append_none (list_messages other db)),
    )
