-- ===== src/Mailbox/Counting.antt =====
-- How the steps of `send` change the number of pending messages of a recipient.
use feather_os.Prelude.{
  ℕ, ◌≤◌, ◌<◌, ◌≡◌, refl, String, true, inl, inr, Option, none, some, List, [], ◌∷◌, arith, ltb,
  ltb→lt, ltb-le, Bool-cases, str_eq_refl, length, select, count, update, In, In-select,
  length-select, count-update_le, count-update_lt, order_by, In-order_by, length-order_by,
}
use feather_os.Mailbox.{
  Message, addressed, oldest_first, has_id, expire, expire_oldest, enforce_inbox_cap, respond,
  awaits, flip_question, deliver, pending_among,
}

module _ (session agent : String) where
  expire_unaddressed :
      (m : Message) → addressed session agent (expire m) ≡ true → addressed session agent m ≡ true
  expire_unaddressed m h = ground arith

  -- Expiring the first of some pending rows leaves one pending row fewer.
  expire_oldest-lt :
      (rows l : List Message)
      → ((m : Message) → In m l → In m rows × (addressed session agent m ≡ true))
      → 0 < length l
      → count (addressed session agent) (expire_oldest l rows)
        < count (addressed session agent) rows
  expire_oldest-lt rows [] among h = elim h [ ]
  expire_oldest-lt rows (m ∷ l) among h =
      let (here, there) = among m (inl refl) in
      count-update_lt (has_id m.id) (addressed session agent) expire rows m expire_unaddressed here
        (str_eq_refl m.id) there (ground arith)

  expire_oldest-le :
      (rows l : List Message)
      → count (addressed session agent) (expire_oldest l rows)
        ≤ count (addressed session agent) rows
  expire_oldest-le rows [] = omega arith
  expire_oldest-le rows (m ∷ l) =
      count-update_le (has_id m.id) (addressed session agent) expire rows expire_unaddressed

  -- Making room for any recipient adds no pending row.
  pub enforce_inbox_cap-le :
      (cap : ℕ) (session' agent' : String) (rows : List Message)
      → count (addressed session agent) (enforce_inbox_cap cap session' agent' rows)
        ≤ count (addressed session agent) rows
  unfolding enforce_inbox_cap
  enforce_inbox_cap-le cap session' agent' rows = ground (
    arith,
    expire_oldest-le rows (order_by oldest_first (select (addressed session' agent') rows)),
  )

  -- From at most `cap` pending rows, there is room for one more after it.
  pub enforce_inbox_cap-lt :
      (cap : ℕ) (rows : List Message)
      → 0 < cap
      → count (addressed session agent) rows ≤ cap
      → count (addressed session agent) (enforce_inbox_cap cap session agent rows) < cap
  unfolding enforce_inbox_cap
  enforce_inbox_cap-lt cap rows pos bound =
      let full = select (addressed session agent) rows in
      elim (Bool-cases (ltb (count (addressed session agent) rows) cap)) [
        | inl t ↦ rw t (ltb→lt _ _ t)
        | inr f ↦ rw f (
            omega (
              arith,
              ltb-le _ _ f,
              expire_oldest-lt rows (order_by oldest_first full)
                  (λ m i. In-select _ m rows (In-order_by oldest_first m full i))
                  (omega (
                    arith,
                    ltb-le _ _ f,
                    length-order_by oldest_first full,
                    length-select (addressed session agent) rows,
                  )),
            ))
      ]

  pub flip_question-le :
      (reply : Option String) (now : String) (rows : List Message)
      → count (addressed session agent) (flip_question reply now rows)
        ≤ count (addressed session agent) rows
  flip_question-le none now rows = omega arith
  flip_question-le (some c) now rows = ground (
    arith,
    count-update_le (awaits c) (addressed session agent) (respond now) rows (λ m h. ground arith),
  )

  pub deliver-le :
      (ids : List String) (now : String) (rows : List Message)
      → count (addressed session agent) (update (pending_among ids) (deliver now) rows)
        ≤ count (addressed session agent) rows
  deliver-le ids now rows =
      count-update_le (pending_among ids) (addressed session agent) (deliver now) rows
        (λ m h. ground arith)

  pub addressed-count_new : (m : Message) → count (addressed session agent) (m ∷ []) ≤ 1
  addressed-count_new m = ground arith
