-- ===== src/Tools/Sending.antt =====
-- src/feather/tools/send_message_tool.py: which messages go out, and what a refusal leaves.
use feather_os.Prelude.{
  ℕ, ℤ, String, ◌≡◌, refl, ap, Bool, true, false, Option, none, some, Option-cases, inl, inr, ◌⊎◌,
  Bool-cases, Error, Result, Result-cases, ok, err, any, has_key, fetch-any, fetch,
}
use feather_os.Ipc.Json.{Fields}
use feather_os.Mailbox.{Message, send}
use feather_os.Mailbox.Replies.{send_refuses}
use feather_os.Sessions.Records.{session_key}
use feather_os.Sessions.State.{get_session}
use feather_os.Subagents.Registry
use feather_os.Subagents.Registry.{LiveSubagent, SubagentRegistry, is_recently_exited}
use feather_os.Tools.SendMessage.{
  World, SendMessageTool, Stamps, Arguments, require_str, with_options, read_arguments,
  check_session, check_subagent, outgoing, is_own_inbox, send_message,
}

-- Asking for the graves leaves the live children.
is_recently_exited-live :
    (session_id : String) (clock : ℕ) (r : SubagentRegistry)
    → (is_recently_exited session_id clock r).1.live ≡ r.live
unfolding is_recently_exited
is_recently_exited-live session_id clock r = refl

module _ (tool : SendMessageTool) (session_id : String) (returncode : String → Option ℤ)
    (error_text : Error → String) (nonzero : String → Bool) where
  abbrev read : Fields → World → Result Arguments × World
  read = read_arguments tool session_id returncode error_text nonzero

  abbrev check_child_of : Arguments → ℕ → World → Result (Unit {0}) × World
  check_child_of = check_subagent tool session_id returncode error_text nonzero

  abbrev check_of : Arguments → World → Result (Unit {0}) × World
  check_of a = check_session tool session_id returncode error_text nonzero a.to_session

  -- The recipient is another agent's inbox, in a session that there is, and no child that has exited.
  pub record IsReachable (a : Arguments) (clock : ℕ) (w : World) : Type 0 where
    pub other : is_own_inbox tool session_id returncode error_text nonzero a ≡ false
    pub known :
        tool.has_session_store ≡ true
        → any (has_key session_key a.to_session) w.sessions.sessions ≡ true
    pub alive :
        tool.has_subagent_registry ≡ true
        → (l : LiveSubagent) → Registry.get a.to_session w.registry ≡ some l
        → returncode l.session_id ≡ none
    pub unburied :
        tool.has_subagent_registry ≡ true
        → Registry.get a.to_session w.registry ≡ none
        → (is_recently_exited a.to_session clock w.registry).0 ≡ false

  -- No call touches the sessions or the live children.
  pub record IsElsewhereSame (w after : World) : Type 0 where
    pub sessions : after.sessions ≡ w.sessions
    pub live : after.registry.live ≡ w.registry.live

  abbrev pub Outcome : Fields → Stamps → World → Result String × World → Type 0
  Outcome arguments t w (ok output, after) =
      IsElsewhereSame w after
      × ((a : Arguments) × ((read arguments w).0 ≡ ok a)
          × IsReachable a t.clock w
          × ((m : Message) × (send (outgoing tool session_id returncode error_text nonzero a) t.now
                  t.message_id t.fresh w.mailbox
                ≡ (ok m, after.mailbox))))
  Outcome arguments t w (err e, after) = IsElsewhereSame w after × (after.mailbox ≡ w.mailbox)

  read-cases :
      (arguments : Fields) (w : World)
      → ((a : Arguments) × (read arguments w ≡ (ok a, w)))
        ⊎ ((e : Error) × (read arguments w ≡ (err e, w)))
  unfolding read_arguments
  read-cases arguments w = elim (Result-cases (require_str arguments "to_agent_name")) [
    | inr (e, h) ↦ inr (e, rw h refl)
    | inl (x, h) ↦ elim (Result-cases (require_str arguments "to_session_id")) [
      | inr (e, k) ↦ inr (e, rw (h, k) refl)
      | inl (y, k) ↦ elim (Result-cases (require_str arguments "body")) [
        | inr (e, l) ↦ inr (e, rw (h, k, l) refl)
        | inl (z, l) ↦ inl (
          with_options tool session_id returncode error_text nonzero arguments x y z,
          rw (h, k, l) refl,
        )
      ]
    ]
  ]

  abbrev Alive : Arguments → ℕ → World → Type 0
  Alive a clock w =
      ((l : LiveSubagent)
        → Registry.get a.to_session w.registry ≡ some l
        → returncode l.session_id ≡ none)
      × (Registry.get a.to_session w.registry ≡ none
          → (is_recently_exited a.to_session clock w.registry).0 ≡ false)

  check_session_lem :
      (a : Arguments) (w : World)
      → ((check_of a w).1 ≡ w)
        × ((check_of a w).0 ≡ ok tt
            → tool.has_session_store ≡ true
            → any (has_key session_key a.to_session) w.sessions.sessions ≡ true)
  unfolding check_session get_session
  check_session_lem a w = elim (Bool-cases tool.has_session_store) [
    | inr f ↦ (rw f refl, λ h t. cc (f, t))
    | inl t ↦ elim (Option-cases (fetch session_key a.to_session w.sessions.sessions)) [
      | inl missing ↦ (rw t refl, λ h u. cc (rw (t, missing) at h))
      | inr (s, found) ↦
          (rw t refl, λ h u. fetch-any session_key a.to_session s w.sessions.sessions found)
    ]
  ]

  -- The look at the registry refuses a child that has exited, and only evicts graves.
  check_subagent_lem :
      (a : Arguments) (clock : ℕ) (w : World)
      → (registry : SubagentRegistry) × (registry.live ≡ w.registry.live)
        × ((check_child_of a clock w).1 ≡ record w { registry = registry })
        × ((check_child_of a clock w).0 ≡ ok tt
            → tool.has_subagent_registry ≡ true
            → Alive a clock w)
  unfolding check_subagent
  check_subagent_lem a clock w = elim (Bool-cases tool.has_subagent_registry) [
    | inr f ↦ (w.registry, refl, rw f refl, λ h t. cc (f, t))
    | inl t ↦ elim (Option-cases (Registry.get a.to_session w.registry)) [
      | inr (l, found) ↦ elim (Option-cases (returncode l.session_id)) [
        | inl runs ↦ (
          w.registry,
          refl,
          rw (t, found, runs) refl,
          λ h u. (λ k e. let same : k ≡ l = cc in rw same runs, λ missing. cc),
        )
        | inr (code, exited) ↦
            (w.registry, refl, rw (t, found, exited) refl, λ h u. cc (rw (t, found, exited) at h))
      ]
      | inl missing ↦ elim (Bool-cases (is_recently_exited a.to_session clock w.registry).0) [
        | inl buried ↦ (
          (is_recently_exited a.to_session clock w.registry).1,
          is_recently_exited-live a.to_session clock w.registry,
          rw (t, missing, buried) refl,
          λ h u. cc (rw (t, missing, buried) at h),
        )
        | inr free ↦ (
          (is_recently_exited a.to_session clock w.registry).1,
          is_recently_exited-live a.to_session clock w.registry,
          rw (t, missing, free) refl,
          λ h u. (λ k e. cc, λ m. free),
        )
      ]
    ]
  ]

  sent_lem :
      (arguments : Fields) (t : Stamps) (w : World) (a : Arguments)
      → read arguments w ≡ (ok a, w)
      → is_own_inbox tool session_id returncode error_text nonzero a ≡ false
      → Outcome arguments t w
          (send_message tool session_id returncode error_text nonzero arguments t w)
  unfolding send_message
  sent_lem arguments t w a complete other =
      let (stays, knows) = check_session_lem a w in
      let (registry, live, evicts, alive) = check_subagent_lem a t.clock w in
      let o = outgoing tool session_id returncode error_text nonzero a in
      elim (Result-cases (check_of a w).0) [
        | inr (e, unknown) ↦
            rw (complete, other, unknown, stays) (record { sessions = refl; live = refl }, refl)
        | inl (u, found) ↦ elim (Result-cases (check_child_of a t.clock w).0) [
          | inr (e, exited) ↦
              rw (complete, other, found, stays, exited, evicts)
                (record { sessions = refl; live = live }, refl)
          | inl (x, runs) ↦ elim (Result-cases (send o t.now t.message_id t.fresh w.mailbox).0) [
            | inr (e, refused) ↦
                rw (complete, other, found, stays, runs, evicts, refused)
                  (
                    record { sessions = refl; live = live },
                    send_refuses o t.now t.message_id t.fresh w.mailbox e refused,
                  )
            | inl (m, accepted) ↦
                rw (complete, other, found, stays, runs, evicts, accepted)
                  (
                    record { sessions = refl; live = live },
                    (
                      a,
                      rw complete refl,
                      record {
                        other = other;
                        known = knows found;
                        alive = λ h. (alive runs h).0;
                        unburied = λ h. (alive runs h).1;
                      },
                      (m, ap (λ r. (r, (send o t.now t.message_id t.fresh w.mailbox).1)) accepted),
                    ),
                  )
          ]
        ]
      ]

  -- A message goes out, exactly as the mailbox takes it, only where its arguments are complete and its
  -- recipient is not the sender, is a session that there is, and is no child that has exited, each as
  -- far as the tool has the store to ask. On any error the mailbox is as it was. In both cases the
  -- sessions and the live children are as they were.
  pub send_message-Outcome :
      (arguments : Fields) (t : Stamps) (w : World)
      → Outcome arguments t w
          (send_message tool session_id returncode error_text nonzero arguments t w)
  unfolding send_message
  send_message-Outcome arguments t w = elim (read-cases arguments w) [
    | inr (e, failed) ↦ rw failed (record { sessions = refl; live = refl }, refl)
    | inl (a, complete) ↦
        elim (Bool-cases (is_own_inbox tool session_id returncode error_text nonzero a)) [
          | inl own ↦ rw (complete, own) (record { sessions = refl; live = refl }, refl)
          | inr other ↦ sent_lem arguments t w a complete other
        ]
  ]
