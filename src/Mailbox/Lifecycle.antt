-- ===== src/Mailbox/Lifecycle.antt =====
-- The life of a message: which status may follow which, and what no operation changes.
use feather_os.Prelude.{
  IsKeyed, IsKeyed-unique, Extends, Extends-refl, Extends-trans, Extends-append, Extends-update, ℕ,
  ◌≡◌, refl, ◌∙◌, String, Bool, true, false, inl, inr, Option, none, some, List, [], ◌∷◌, ◌++◌,
  arith, Bool-cases, str_eq_iff, is_empty, update, In, In-select, select, order_by, In-order_by,
  count, ltb, &&-eq_true,
}
use feather_os.Mailbox.{
  Status, pending, delivered, responded, expired, Message, addressed, oldest_first, has_id, expire,
  expire_oldest, enforce_inbox_cap, respond, awaits, is_open, is_pending, flip_question, deliver,
  pending_among,
}
use feather_os.Mailbox.Keys.{message_key}

-- A pending message may be delivered, answered or expired, a delivered one may be answered, and
-- nothing else changes a status.
abbrev pub may_become : Status → Status → Bool
may_become pending t = true
may_become delivered delivered = true
may_become delivered responded = true
may_become delivered _ = false
may_become responded responded = true
may_become responded _ = false
may_become expired expired = true
may_become expired _ = false

-- What the sender wrote, with the fields left out that the store writes later.
abbrev pub envelope : Message → Message
envelope m = record m { status = pending; delivered_at = none; responded_at = none }

pub record IsLater (m m' : Message) : Type 0 where
  pub kept : envelope m' ≡ envelope m
  pub moved : may_become m.status m'.status ≡ true

-- Every row of the first table stands at its place in the second, at the same or a later status.
abbrev pub Evolves : List Message → List Message → Type 0
Evolves = Extends IsLater

may_become_refl : (s : Status) → may_become s s ≡ true
may_become_refl s = ground arith

may_become_trans :
    (s t u : Status) → may_become s t ≡ true → may_become t u ≡ true → may_become s u ≡ true
may_become_trans s t u p q = ground arith

pub IsLater-refl : (m : Message) → IsLater m m
IsLater-refl m = record { kept = refl; moved = may_become_refl m.status }

IsLater-trans : (l m n : Message) → IsLater l m → IsLater m n → IsLater l n
IsLater-trans l m n p q = record {
  kept = q.kept ∙ p.kept;
  moved = may_become_trans l.status m.status n.status p.moved q.moved;
}

pub Evolves-refl : (xs : List Message) → Evolves xs xs
Evolves-refl = Extends-refl IsLater IsLater-refl

pub Evolves-trans : (xs ys zs : List Message) → Evolves xs ys → Evolves ys zs → Evolves xs zs
Evolves-trans = Extends-trans IsLater IsLater-trans

pub Evolves-append : (xs ys : List Message) → Evolves xs (xs ++ ys)
Evolves-append = Extends-append IsLater IsLater-refl

Evolves-update :
    (p : Message → Bool) (f : Message → Message) (xs : List Message)
    → ((x : Message) → In x xs → p x ≡ true → IsLater x (f x))
    → Evolves xs (update p f xs)
Evolves-update = Extends-update IsLater IsLater-refl

-- The key makes the expired row the pending one that was chosen.
expire_oldest-Evolves :
    (session agent : String) (l ms : List Message)
    → IsKeyed message_key ms
    → ((m : Message) → In m l → In m ms × (addressed session agent m ≡ true))
    → Evolves ms (expire_oldest l ms)
expire_oldest-Evolves session agent [] ms k among = Evolves-refl ms
expire_oldest-Evolves session agent (o ∷ l) ms k among =
    let (here, chosen) = among o (inl refl) in
    Evolves-update (has_id o.id) expire ms λ x m same.
      let e = IsKeyed-unique message_key ms x o k m here ((str_eq_iff x.id o.id).0 same) in
      record { kept = refl; moved = rw e (ground arith) }

pub enforce_inbox_cap-Evolves :
    (cap : ℕ) (session agent : String) (ms : List Message)
    → IsKeyed message_key ms
    → Evolves ms (enforce_inbox_cap cap session agent ms)
unfolding enforce_inbox_cap
enforce_inbox_cap-Evolves cap session agent ms k =
    let full = select (addressed session agent) ms in
    elim (Bool-cases (ltb (count (addressed session agent) ms) cap)) [
      | inl t ↦ rw t (Evolves-refl ms)
      | inr t ↦ rw t (
          expire_oldest-Evolves session agent (order_by oldest_first full) ms k
            (λ m i. In-select _ m ms (In-order_by oldest_first m full i)))
    ]

open_may_respond : (s : Status) → is_open s ≡ true → may_become s responded ≡ true
open_may_respond s h = ground arith

pending_may_deliver : (s : Status) → is_pending s ≡ true → may_become s delivered ≡ true
pending_may_deliver s h = ground arith

pub flip_question-Evolves :
    (reply : Option String) (now : String) (ms : List Message)
    → Evolves ms (flip_question reply now ms)
flip_question-Evolves none now ms = Evolves-refl ms
flip_question-Evolves (some c) now ms = elim (Bool-cases (is_empty c)) [
  | inl t ↦ rw t (Evolves-refl ms)
  | inr t ↦ rw t (
      Evolves-update (awaits c) (respond now) ms
        λ x m h. record { kept = refl; moved = open_may_respond x.status (ground arith) })
]

pub deliver-Evolves :
    (ids : List String) (now : String) (ms : List Message)
    → Evolves ms (update (pending_among ids) (deliver now) ms)
deliver-Evolves ids now ms =
    Evolves-update (pending_among ids) (deliver now) ms
      λ x m h. record { kept = refl; moved = pending_may_deliver x.status (&&-eq_true _ _ h).1 }
