-- ===== src/Mailbox/Keys.antt =====
-- The primary key of `agent_messages`: no two rows have one id.
use feather_os.Prelude.{
  IsKeyed, IsKeyed-update, any-update, ℕ, ◌≡◌, refl, String, inl, inr, Option, none, some, List, [],
  ◌∷◌, Bool-cases, is_empty, any, select, order_by, count, ltb,
}
use feather_os.Mailbox.{
  Message, addressed, oldest_first, has_id, expire, expire_oldest, enforce_inbox_cap, respond,
  awaits, flip_question,
}

abbrev pub message_key : Message → String
message_key m = m.id

expire_oldest-IsKeyed :
    (l ms : List Message) → IsKeyed message_key ms → IsKeyed message_key (expire_oldest l ms)
expire_oldest-IsKeyed [] ms k = k
expire_oldest-IsKeyed (o ∷ l) ms k =
    IsKeyed-update message_key (has_id o.id) expire (λ m. refl) ms k

pub enforce_inbox_cap-IsKeyed :
    (cap : ℕ) (session agent : String) (ms : List Message)
    → IsKeyed message_key ms
    → IsKeyed message_key (enforce_inbox_cap cap session agent ms)
unfolding enforce_inbox_cap
enforce_inbox_cap-IsKeyed cap session agent ms k =
    elim (Bool-cases (ltb (count (addressed session agent) ms) cap)) [
      | inl t ↦ rw t k
      | inr t ↦
          rw t (
            expire_oldest-IsKeyed (order_by oldest_first (select (addressed session agent) ms)) ms
              k)
    ]

pub flip_question-IsKeyed :
    (reply : Option String) (now : String) (ms : List Message)
    → IsKeyed message_key ms
    → IsKeyed message_key (flip_question reply now ms)
flip_question-IsKeyed none now ms k = k
flip_question-IsKeyed (some c) now ms k = elim (Bool-cases (is_empty c)) [
  | inl t ↦ rw t k
  | inr t ↦ rw t (IsKeyed-update message_key (awaits c) (respond now) (λ m. refl) ms k)
]

any-expire_oldest :
    (i : String) (l ms : List Message) → any (has_id i) (expire_oldest l ms) ≡ any (has_id i) ms
any-expire_oldest i [] ms = refl
any-expire_oldest i (o ∷ l) ms = any-update message_key (has_id o.id) expire (λ m. refl) i ms

-- Making room frees no id and takes none.
pub any-enforce_inbox_cap :
    (i : String) (cap : ℕ) (session agent : String) (ms : List Message)
    → any (has_id i) (enforce_inbox_cap cap session agent ms) ≡ any (has_id i) ms
unfolding enforce_inbox_cap
any-enforce_inbox_cap i cap session agent ms =
    elim (Bool-cases (ltb (count (addressed session agent) ms) cap)) [
      | inl t ↦ rw t
      | inr t ↦
          rw t
            (any-expire_oldest i (order_by oldest_first (select (addressed session agent) ms)) ms)
    ]
