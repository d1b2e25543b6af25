-- ===== src/Messaging/Orphans.antt =====
-- src/feather/messaging/router.py, `_handle_claimed`: the session of a new chat whose first messages
-- come at once.
use feather_os.Prelude.{
  String, ◌≡◌, refl, sym, ap, ◌∙◌, Bool, false, not, ◌||◌, inl, inr, some, List, [], ◌∷◌, ◌++◌,
  Bool-cases, any, select, update, head?, str_eq, str_eq_iff, strip, is_empty,
}
use feather_os.Messaging.Store.{
  Platform, ChatMapping, is_chat, is_claim, upsert, upsert_chat_mapping, claim_inbound,
  release_inbound,
}
use feather_os.Messaging.Router.{
  IncomingMessage, Pc, claiming, looking_up, creating, storing, renaming, routing, queueing,
  running, replying, failing, ignored, dropped, handled, released, raised, Handler, Shared, Draws,
  World, select_reply_body, has_sender, is_running_session, advance, abort, with_step, Step,
  arrives, advances, aborts, Reach, here, next,
}

-- The mapping of a chat leads to a session.
pub record Leads (platform : Platform) (chat_id session_id : String) (rows : List ChatMapping)
    : Type 0 where
  pub row : ChatMapping
  pub found : head? (select (is_chat platform chat_id) rows) ≡ some row
  pub is : row.session_id ≡ session_id

pub Leads-unique :
    (p : Platform) (c s t : String) (rows : List ChatMapping)
    → Leads p c s rows
    → Leads p c t rows
    → s ≡ t
Leads-unique p c s t rows a b =
    let same : a.row ≡ b.row = cc (sym a.found ∙ b.found) in
    sym a.is ∙ ap (λ (r : ChatMapping). r.session_id) same ∙ b.is

module _ (p : Platform) (c s : String) where
  Leads-append : (rows more : List ChatMapping) → Leads p c s rows → Leads p c s (rows ++ more)
  Leads-append [] more l = cc (l.found)
  Leads-append (x ∷ rows) more l = elim (Bool-cases (is_chat p c x)) [
    | inl t ↦ record { row = l.row; found = rw t (rw t at l.found); is = l.is }
    | inr f ↦
        let rest =
          Leads-append rows more (record { row = l.row; found = rw f at l.found; is = l.is }) in
        record { row = rest.row; found = rw f rest.found; is = rest.is }
  ]

  -- A new name and a new time.
  abbrev renamed : ChatMapping → ChatMapping → ChatMapping
  renamed n old = record old { display_name = n.display_name; updated_at = n.updated_at }

  Leads-update :
      (q : ChatMapping → Bool) (n : ChatMapping) (rows : List ChatMapping)
      → Leads p c s rows
      → Leads p c s (update q (renamed n) rows)
  Leads-update q n [] l = cc (l.found)
  Leads-update q n (x ∷ rows) l = elim (Bool-cases (is_chat p c x)) [
    | inl t ↦
        let same : x ≡ l.row = cc (rw t at l.found) in
        let its : x.session_id ≡ s = ap (λ (r : ChatMapping). r.session_id) same ∙ l.is in
        elim (Bool-cases (q x)) [
          | inl u ↦ record { row = renamed n x; found = rw (u, t) refl; is = its }
          | inr u ↦ record { row = x; found = rw (u, t) refl; is = its }
        ]
    | inr f ↦
        let rest =
          Leads-update q n rows (record { row = l.row; found = rw f at l.found; is = l.is }) in
        elim (Bool-cases (q x)) [
          | inl u ↦ record { row = rest.row; found = rw (u, f) rest.found; is = rest.is }
          | inr u ↦ record { row = rest.row; found = rw (u, f) rest.found; is = rest.is }
        ]
  ]

  Leads-upsert :
      (n : ChatMapping) (rows : List ChatMapping) → Leads p c s rows → Leads p c s (upsert n rows)
  Leads-upsert n rows l = elim (Bool-cases (any (is_chat n.platform n.chat_id) rows)) [
    | inl t ↦ rw t (Leads-update (is_chat n.platform n.chat_id) n rows l)
    | inr f ↦ rw f (Leads-append rows (n ∷ []) l)
  ]

  abbrev LeadsIn : Shared → Type 0
  LeadsIn t = Leads p c s t.db.chats

  advance-Leads :
      (d : Draws) (m : IncomingMessage) (pc : Pc) (t : Shared)
      → LeadsIn t
      → LeadsIn (advance d m pc t).1
  unfolding advance upsert_chat_mapping claim_inbound release_inbound
  advance-Leads d m claiming t l =
      elim (Bool-cases (any (is_claim m.platform m.native_message_id) t.db.inbound)) [
        | inl u ↦ rw u l
        | inr f ↦ rw f l
      ]
  advance-Leads d m looking_up t l = l
  advance-Leads d m creating t l = l
  advance-Leads d m (storing j) t l = Leads-upsert _ t.db.chats l
  advance-Leads d m (renaming j) t l = Leads-upsert _ t.db.chats l
  advance-Leads d m (routing j) t l =
      elim (Bool-cases (is_running_session j t.active_sessions || d.is_session_busy)) [
        | inl u ↦ rw u l
        | inr f ↦ rw f l
      ]
  advance-Leads d m (queueing j) t l = l
  advance-Leads d m (running j) t l = l
  advance-Leads d m (replying r) t l =
      elim (Bool-cases (
        not (has_sender m.platform t.adapter_senders)
        || is_empty (strip (select_reply_body r))
        || d.send_fails)) [ inl u ↦ rw u l | inr f ↦ rw f l ]
  advance-Leads d m failing t l = l
  advance-Leads d m ignored t l = l
  advance-Leads d m dropped t l = l
  advance-Leads d m handled t l = l
  advance-Leads d m released t l = l
  advance-Leads d m raised t l = l

  abort-Leads : (pc : Pc) (t : Shared) → LeadsIn t → LeadsIn (abort pc t).1
  unfolding abort
  abort-Leads claiming t l = l
  abort-Leads looking_up t l = l
  abort-Leads creating t l = l
  abort-Leads (storing j) t l = l
  abort-Leads (renaming j) t l = l
  abort-Leads (routing j) t l = l
  abort-Leads (queueing j) t l = l
  abort-Leads (running j) t l = l
  abort-Leads (replying r) t l = l
  abort-Leads failing t l = l
  abort-Leads ignored t l = l
  abort-Leads dropped t l = l
  abort-Leads handled t l = l
  abort-Leads released t l = l
  abort-Leads raised t l = l

  Step-Leads : {w v : World} → Step w v → LeadsIn w.shared → LeadsIn v.shared
  Step-Leads (arrives m) l = l
  Step-Leads {w} (advances pre post m pc d e) l = advance-Leads d m pc w.shared l
  Step-Leads {w} (aborts pre post m pc e) l = abort-Leads pc w.shared l

  -- Once a chat is mapped, no handler ever maps it to another session.
  pub Reach-Leads : {w v : World} → LeadsIn w.shared → Reach w v → LeadsIn v.shared
  Reach-Leads l here = l
  Reach-Leads l (next r st) = Step-Leads st (Reach-Leads l r)

-- A handler that comes to store a new session for a chat that was mapped to another session meanwhile
-- goes on with its own session, and however all handlers go on from there, the chat's mapping leads to
-- the other session and never to its own.
pub storing-IsOrphaned :
    (w v : World) (pre post : List Handler) (m : IncomingMessage) (own other : String) (d : Draws)
    → Leads m.platform m.chat_id other w.shared.db.chats
    → str_eq own other ≡ false
    → Reach (with_step pre post m (advance d m (storing own) w.shared)) v
    → ((advance d m (storing own) w.shared).0 ≡ routing own)
      × Leads m.platform m.chat_id other v.shared.db.chats
      × ¬ Leads m.platform m.chat_id own v.shared.db.chats
storing-IsOrphaned w v pre post m own other d l different r =
    let still =
      Reach-Leads m.platform m.chat_id other
        (advance-Leads m.platform m.chat_id other d m (storing own) w.shared l) r in
    (
      unfold advance in refl,
      still,
      λ wrong. cc (
        different,
        (str_eq_iff own other).1
            (Leads-unique m.platform m.chat_id own other v.shared.db.chats wrong still),
      ),
    )
