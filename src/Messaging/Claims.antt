-- ===== src/Messaging/Claims.antt =====
-- src/feather/messaging/router.py, `handle_incoming`: a message that is delivered again is not handled
-- again.
use feather_os.Prelude.{
  ℕ, ◌+◌, ◌≤◌, String, ◌≡◌, refl, sym, ap, ◌∙◌, Bool, true, false, not, ◌&&◌, ◌||◌, inl, inr,
  Option, none, some, List, [], ◌∷◌, ◌++◌, if◌then◌else◌, Bool-cases, arith, any, count, select,
  count-append, count-middle, str_eq, str_eq_iff, strip, is_empty, &&-eq_true,
}
use feather_os.Messaging.Store.{
  Platform, platform_value, ChatMapping, Claim, is_claim, get_chat_mapping, upsert_chat_mapping,
  claim_inbound, release_inbound,
}
use feather_os.Messaging.Router.{
  IncomingMessage, Pc, claiming, looking_up, creating, storing, renaming, routing, queueing,
  running, replying, failing, ignored, dropped, handled, released, raised, Handler, Shared, Draws,
  World, AgentRunResult, select_reply_body, has_sender, dispatch_reply, is_running_session, start,
  after_lookup, route, advance, abort, with_step, Step, arrives, advances, aborts, Reach, here,
  next,
}

-- From its claim on, until the claim is given back.
abbrev pub is_owning : Pc → Bool
is_owning claiming = false
is_owning ignored = false
is_owning dropped = false
is_owning released = false
is_owning raised = false
is_owning _ = true

abbrev pub owns : Platform → String → Handler → Bool
owns platform id h =
    str_eq (platform_value h.message.platform) (platform_value platform)
    && (str_eq h.message.native_message_id id && is_owning h.pc)

-- Of the handlers of one message id at most one took it, and only where the table has it.
pub record IsClaimedOnce (w : World) : Type 0 where
  pub counted :
      (platform : Platform) (id : String)
      → count (owns platform id) w.handlers
        ≤ (if any (is_claim platform id) w.shared.db.inbound then 1 else 0)

any-append :
    {A : Type 0} (p : A → Bool) (xs ys : List A) → any p (xs ++ ys) ≡ (any p xs || any p ys)
any-append p [] ys = refl
any-append p (x ∷ xs) ys = ground (arith, any-append p xs ys)

-- A row that is kept is found again.
any-select_kept :
    {A : Type 0} (p q : A → Bool) (xs : List A)
    → ((x : A) → p x ≡ true → q x ≡ true)
    → any p (select q xs) ≡ any p xs
any-select_kept p q [] k = refl
any-select_kept p q (x ∷ xs) k = ground (arith, any-select_kept p q xs k, k x)

abbrev stands : String → String → List Claim → Bool
stands platform id rows =
    any (λ r. str_eq (platform_value r.platform) platform && str_eq r.native_message_id id) rows

same-stands :
    (p q : String) (i j : String) (rows : List Claim)
    → str_eq q p ≡ true
    → str_eq j i ≡ true
    → stands p i rows ≡ stands q j rows
same-stands p q i j rows a b =
    ap (λ x. stands x i rows) (sym ((str_eq_iff q p).0 a))
    ∙ ap (λ x. stands q x rows) (sym ((str_eq_iff j i).0 b))

module _ (p : Platform) (i : String) (m : IncomingMessage) where
  abbrev share : Shared → ℕ
  share s = if any (is_claim p i) s.db.inbound then 1 else 0

  abbrev weight : Pc → ℕ
  weight pc = count (owns p i) (record { message = m; pc = pc } ∷ [])

  abbrev is_its : Bool
  is_its = str_eq (platform_value m.platform) (platform_value p) && str_eq m.native_message_id i

  abbrev Covered : Pc → Shared → Pc × Shared → Type 0
  Covered pc s (pc', t) = weight pc' + share s ≤ weight pc + share t

  -- Another message's claim is no claim of this one.
  other_claim :
      (r : Claim)
      → is_its ≡ false
      → is_claim p i r ≡ true
      → not (is_claim m.platform m.native_message_id r) ≡ true
  other_claim r other h = elim (Bool-cases (is_claim m.platform m.native_message_id r)) [
    | inl t ↦
        let (a, b) = &&-eq_true _ _ h in
        let (c, d) = &&-eq_true _ _ t in
        let same_platform = (str_eq_iff (platform_value m.platform) (platform_value p)).1 (
          sym ((str_eq_iff (platform_value r.platform) (platform_value m.platform)).0 c)
          ∙ (str_eq_iff (platform_value r.platform) (platform_value p)).0 a) in
        let same_id = (str_eq_iff m.native_message_id i).1 (
          sym ((str_eq_iff r.native_message_id m.native_message_id).0 d)
          ∙ (str_eq_iff r.native_message_id i).0 b) in
        cc (rw (same_platform, same_id) at other)
    | inr f ↦ rw f refl
  ]

  claim-Covered : (d : Draws) (s : Shared) → Covered claiming s (advance d m claiming s)
  unfolding advance claim_inbound
  claim-Covered d s =
      elim (Bool-cases (any (is_claim m.platform m.native_message_id) s.db.inbound)) [
        | inl t ↦ rw t (ground arith)
        | inr f ↦ rw f (
            rw (any-append (is_claim p i) s.db.inbound _) (elim (Bool-cases is_its) [
              | inl its ↦
                  let (a, b) = &&-eq_true _ _ its in
                  let free : any (is_claim p i) s.db.inbound ≡ false =
                    same-stands (platform_value p) (platform_value m.platform) i m.native_message_id
                      s.db.inbound a b
                    ∙ f in
                  rw (free, a, b) (omega arith)
              | inr other ↦ ground (arith, other)
            ]))
      ]

  release-Covered : (d : Draws) (s : Shared) → Covered failing s (advance d m failing s)
  unfolding advance release_inbound
  release-Covered d s = elim (Bool-cases is_its) [
    | inl its ↦ ground (arith, its)
    | inr other ↦
        rw
          (any-select_kept (is_claim p i) (λ r. not (is_claim m.platform m.native_message_id r))
            s.db.inbound (λ r h. other_claim r other h))
          (ground (arith, other))
  ]

  owning-after_lookup : (found : Option ChatMapping) → is_owning (after_lookup m found) ≡ true
  owning-after_lookup none = refl
  owning-after_lookup (some c) = elim (Bool-cases (str_eq c.display_name m.sender_display_name)) [
    | inl t ↦ rw t refl
    | inr f ↦ rw f refl
  ]

  lookup-Covered : (d : Draws) (s : Shared) → Covered looking_up s (advance d m looking_up s)
  unfolding advance
  lookup-Covered d s =
      rw (owning-after_lookup (get_chat_mapping m.platform m.chat_id s.db)) (omega arith)

  route-Covered : (j : String) (d : Draws) (s : Shared) → Covered (routing j) s (route j d s)
  route-Covered j d s =
      elim (Bool-cases (is_running_session j s.active_sessions || d.is_session_busy)) [
        | inl t ↦ rw t (omega arith)
        | inr f ↦ rw f (omega arith)
      ]

  reply-Covered :
      (r : AgentRunResult) (d : Draws) (s : Shared)
      → Covered (replying r) s (handled, dispatch_reply m r d s)
  reply-Covered r d s =
      elim (Bool-cases (
        not (has_sender m.platform s.adapter_senders)
        || is_empty (strip (select_reply_body r))
        || d.send_fails)) [ inl t ↦ rw t (omega arith) | inr f ↦ rw f (omega arith) ]

  advance-Covered : (d : Draws) (pc : Pc) (s : Shared) → Covered pc s (advance d m pc s)
  unfolding advance upsert_chat_mapping
  advance-Covered d claiming s = claim-Covered d s
  advance-Covered d looking_up s = lookup-Covered d s
  advance-Covered d creating s = omega arith
  advance-Covered d (storing j) s = omega arith
  advance-Covered d (renaming j) s = omega arith
  advance-Covered d (routing j) s = route-Covered j d s
  advance-Covered d (queueing j) s = omega arith
  advance-Covered d (running j) s = omega arith
  advance-Covered d (replying r) s = reply-Covered r d s
  advance-Covered d failing s = release-Covered d s
  advance-Covered d ignored s = omega arith
  advance-Covered d dropped s = omega arith
  advance-Covered d handled s = omega arith
  advance-Covered d released s = omega arith
  advance-Covered d raised s = omega arith

  abort-Covered : (pc : Pc) (s : Shared) → Covered pc s (abort pc s)
  unfolding abort
  abort-Covered claiming s = omega arith
  abort-Covered looking_up s = omega arith
  abort-Covered creating s = omega arith
  abort-Covered (storing j) s = omega arith
  abort-Covered (renaming j) s = omega arith
  abort-Covered (routing j) s = omega arith
  abort-Covered (queueing j) s = omega arith
  abort-Covered (running j) s = omega arith
  abort-Covered (replying r) s = omega arith
  abort-Covered failing s = ground arith
  abort-Covered ignored s = omega arith
  abort-Covered dropped s = omega arith
  abort-Covered handled s = omega arith
  abort-Covered released s = omega arith
  abort-Covered raised s = omega arith

  start-free : weight (start m) ≡ 0
  start-free = elim (Bool-cases (is_empty (strip m.text))) [
    | inl t ↦ rw t (ground arith)
    | inr f ↦ rw f (ground arith)
  ]

with_step-IsClaimedOnce :
    (w : World) (pre post : List Handler) (m : IncomingMessage) (pc : Pc) (after : Pc × Shared)
    → w.handlers ≡ pre ++ record { message = m; pc = pc } ∷ post
    → ((p : Platform) (i : String) → Covered p i m pc w.shared after)
    → IsClaimedOnce w
    → IsClaimedOnce (with_step pre post m after)
with_step-IsClaimedOnce w pre post m pc (pc', s) e covered v = record {
  counted = λ p i.
      let before =
        ap (count (owns p i)) e
        ∙ count-middle (owns p i) pre (record { message = m; pc = pc }) post in
      omega (
        arith,
        before,
        v.counted p i,
        covered p i,
        count-middle (owns p i) pre (record { message = m; pc = pc' }) post,
      );
}

Step-IsClaimedOnce : {w v : World} → Step w v → IsClaimedOnce w → IsClaimedOnce v
Step-IsClaimedOnce {w} (arrives m) v = record {
  counted = λ p i. omega (
    arith,
    v.counted p i,
    start-free p i m,
    count-append {0} (owns p i) w.handlers (record { message = m; pc = start m } ∷ []),
  );
}
Step-IsClaimedOnce {w} (advances pre post m pc d e) v =
    with_step-IsClaimedOnce w pre post m pc (advance d m pc w.shared) e
      (λ p i. advance-Covered p i m d pc w.shared) v
Step-IsClaimedOnce {w} (aborts pre post m pc e) v =
    with_step-IsClaimedOnce w pre post m pc (abort pc w.shared) e
      (λ p i. abort-Covered p i m pc w.shared) v

-- Whatever messages come, redelivered ones too, and however the steps and the errors of their handlers
-- interleave, as long as no claims are pruned: if of the handlers of one message id at most one has
-- taken it and not given it back, and only where the table has its claim, that stays so. So a message
-- that was handled, or that is being handled, is never handled again.
pub Reach-IsClaimedOnce : {w v : World} → IsClaimedOnce w → Reach w v → IsClaimedOnce v
Reach-IsClaimedOnce v here = v
Reach-IsClaimedOnce v (next r st) = Step-IsClaimedOnce st (Reach-IsClaimedOnce v r)
