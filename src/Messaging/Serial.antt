-- ===== src/Messaging/Serial.antt =====
-- src/feather/messaging/router.py: the runs that the router starts for one session never overlap.
use feather_os.Prelude.{
  ℕ, ◌+◌, ◌≤◌, String, ◌≡◌, refl, ap, ◌∙◌, Bool, true, false, not, ◌||◌, inl, inr, Option, none,
  some, List, [], ◌∷◌, ◌++◌, if◌then◌else◌, Bool-cases, arith, count, select, count-append,
  count-middle, str_eq, str_eq_iff, strip, is_empty,
}
use feather_os.Messaging.Store.{ChatMapping, get_chat_mapping, claim_inbound}
use feather_os.Messaging.Router.{
  IncomingMessage, Pc, claiming, looking_up, creating, storing, renaming, routing, queueing,
  running, replying, failing, ignored, dropped, handled, released, raised, Handler, Shared, Draws,
  World, AgentRunResult, select_reply_body, has_sender, dispatch_reply, is_running_session,
  leave_session, start, after_claim, after_lookup, route, advance, abort, with_step, Step, arrives,
  advances, aborts, Reach, here, next,
}

abbrev pub runs : String → Handler → Bool
runs session_id h = elim h.pc [ running i ↦ str_eq i session_id | _ ↦ false ]

-- The set of active sessions has a session exactly while one handler runs the agent for it, and there
-- is never a second one.
pub record IsSerial (w : World) : Type 0 where
  pub counted :
      (session_id : String)
      → count (runs session_id) w.handlers
        ≡ (if is_running_session session_id w.shared.active_sessions then 1 else 0)

abbrev share : String → List String → ℕ
share i active = if is_running_session i active then 1 else 0

abbrev weight : String → IncomingMessage → Pc → ℕ
weight i m pc = count (runs i) (record { message = m; pc = pc } ∷ [])

leave-running :
    (i session_id : String) (active : List String)
    → is_running_session i (select (λ j. not (str_eq j session_id)) active)
      ≡ (if str_eq session_id i then false else is_running_session i active)
leave-running i session_id [] = ground arith
leave-running i session_id (j ∷ active) = ground (
  arith,
  leave-running i session_id active,
  str_eq_iff j session_id,
  str_eq_iff j i,
  str_eq_iff session_id i,
)

-- A step moves a session into the set and out of it with its handler.
module _ (i : String) (m : IncomingMessage) where
  abbrev Balanced : Pc → Shared → Pc × Shared → Type 0
  Balanced pc s (pc', t) =
      weight i m pc + share i t.active_sessions ≡ weight i m pc' + share i s.active_sessions

  leave-Balanced :
      (session_id : String) (pc : Pc) (s : Shared)
      → weight i m (running session_id) ≤ share i s.active_sessions
      → weight i m pc ≡ 0
      → Balanced (running session_id) s (pc, leave_session session_id s)
  leave-Balanced session_id pc s inside quiet =
      ground (arith, inside, quiet, leave-running i session_id s.active_sessions)

  after_claim-quiet : (claimed : Bool) → weight i m (after_claim claimed) ≡ 0
  after_claim-quiet true = refl
  after_claim-quiet false = refl

  after_lookup-quiet : (found : Option ChatMapping) → weight i m (after_lookup m found) ≡ 0
  after_lookup-quiet none = refl
  after_lookup-quiet (some c) = elim (Bool-cases (str_eq c.display_name m.sender_display_name)) [
    | inl t ↦ rw t refl
    | inr f ↦ rw f refl
  ]

  route-Balanced :
      (session_id : String) (d : Draws) (s : Shared)
      → Balanced (routing session_id) s (route session_id d s)
  route-Balanced session_id d s =
      elim (Bool-cases (is_running_session session_id s.active_sessions || d.is_session_busy)) [
        | inl t ↦ rw t refl
        | inr f ↦ rw f (ground (arith, f, str_eq_iff session_id i))
      ]

  dispatch_reply-active :
      (result : AgentRunResult) (d : Draws) (s : Shared)
      → (dispatch_reply m result d s).active_sessions ≡ s.active_sessions
  dispatch_reply-active result d s =
      elim (Bool-cases (
        not (has_sender m.platform s.adapter_senders)
        || is_empty (strip (select_reply_body result))
        || d.send_fails)) [ inl t ↦ rw t refl | inr f ↦ rw f refl ]

  advance-Balanced :
      (d : Draws) (pc : Pc) (s : Shared)
      → weight i m pc ≤ share i s.active_sessions
      → Balanced pc s (advance d m pc s)
  unfolding advance
  advance-Balanced d claiming s h =
      rw (after_claim-quiet (claim_inbound m.platform m.native_message_id d.now s.db).0) refl
  advance-Balanced d looking_up s h =
      rw (after_lookup-quiet (get_chat_mapping m.platform m.chat_id s.db)) refl
  advance-Balanced d creating s h = refl
  advance-Balanced d (storing j) s h = refl
  advance-Balanced d (renaming j) s h = refl
  advance-Balanced d (routing j) s h = route-Balanced j d s
  advance-Balanced d (queueing j) s h = refl
  advance-Balanced d (running j) s h = leave-Balanced j (replying d.result) s h refl
  advance-Balanced d (replying r) s h =
      ap (λ active. 0 + share i active) (dispatch_reply-active r d s)
  advance-Balanced d failing s h = refl
  advance-Balanced d ignored s h = refl
  advance-Balanced d dropped s h = refl
  advance-Balanced d handled s h = refl
  advance-Balanced d released s h = refl
  advance-Balanced d raised s h = refl

  abort-Balanced :
      (pc : Pc) (s : Shared)
      → weight i m pc ≤ share i s.active_sessions
      → Balanced pc s (abort pc s)
  unfolding abort
  abort-Balanced claiming s h = refl
  abort-Balanced looking_up s h = refl
  abort-Balanced creating s h = refl
  abort-Balanced (storing j) s h = refl
  abort-Balanced (renaming j) s h = refl
  abort-Balanced (routing j) s h = refl
  abort-Balanced (queueing j) s h = refl
  abort-Balanced (running j) s h = leave-Balanced j failing s h refl
  abort-Balanced (replying r) s h = refl
  abort-Balanced failing s h = refl
  abort-Balanced ignored s h = refl
  abort-Balanced dropped s h = refl
  abort-Balanced handled s h = refl
  abort-Balanced released s h = refl
  abort-Balanced raised s h = refl

-- What a handler's step keeps.
with_step-IsSerial :
    (w : World) (pre post : List Handler) (m : IncomingMessage) (pc : Pc) (after : Pc × Shared)
    → w.handlers ≡ pre ++ record { message = m; pc = pc } ∷ post
    → ((i : String)
        → weight i m pc ≤ share i w.shared.active_sessions
        → Balanced i m pc w.shared after)
    → IsSerial w
    → IsSerial (with_step pre post m after)
with_step-IsSerial w pre post m pc (pc', s) e balanced v = record {
  counted = λ i.
      let before =
        ap (count (runs i)) e ∙ count-middle (runs i) pre (record { message = m; pc = pc }) post in
      omega (
        arith,
        before,
        v.counted i,
        balanced i (omega (arith, before, v.counted i)),
        count-middle (runs i) pre (record { message = m; pc = pc' }) post,
      );
}

start-quiet : (i : String) (m : IncomingMessage) → weight i m (start m) ≡ 0
start-quiet i m = elim (Bool-cases (is_empty (strip m.text))) [
  | inl t ↦ rw t refl
  | inr f ↦ rw f refl
]

Step-IsSerial : {w v : World} → Step w v → IsSerial w → IsSerial v
Step-IsSerial {w} (arrives m) v = record {
  counted = λ i. omega (
    arith,
    v.counted i,
    start-quiet i m,
    count-append {0} (runs i) w.handlers (record { message = m; pc = start m } ∷ []),
  );
}
Step-IsSerial {w} (advances pre post m pc d e) v =
    with_step-IsSerial w pre post m pc (advance d m pc w.shared) e
      (λ i. advance-Balanced i m d pc w.shared) v
Step-IsSerial {w} (aborts pre post m pc e) v =
    with_step-IsSerial w pre post m pc (abort pc w.shared) e (λ i. abort-Balanced i m pc w.shared) v

-- Whatever messages come, and however the steps and the errors of their handlers interleave: if the
-- set of active sessions has a session exactly while one handler runs the agent for it, that stays so.
-- So the router never runs the agent for one session twice at once, and no error leaves a session in
-- the set.
pub Reach-IsSerial : {w v : World} → IsSerial w → Reach w v → IsSerial v
Reach-IsSerial v here = v
Reach-IsSerial v (next r st) = Step-IsSerial st (Reach-IsSerial v r)
