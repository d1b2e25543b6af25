-- ===== src/Inputs/Refinement.antt =====
-- The queue keeps the promise of Inputs/Spec.
use feather_os.Prelude.{
  ℕ, zero, suc, min, Option-cases, fetch-any, ◌≤◌, ◌<◌, ◌≡◌, refl, sym, ◌∙◌, ap, subst, String,
  true, not, some, List, [], ◌∷◌, ◌++◌, arith, Bool-cases, inl, inr, if◌then◌else◌, str_eq,
  str_eq_iff, strip, is_empty, length, select, update, any, has_key, fetch, fetch-update,
  fetch_total, pos, ok,
}
use feather_os.Inputs.{
  Entry, UserInputQueue, entry_key, init, items_of, setdefault, put_items, replace, drain_items,
  push_all, enqueue, drain, peek, depth, clear, extend,
}
use feather_os.Inputs.Windows.{
  newest, newest-nil, cleaned, length-newest, push-newest, push_all-newest,
}
use feather_os.Inputs.Spec.{
  Call, enqueued, extended, drained, peeked, measured, cleared, number, items, perform, perform_all,
  Log, with_log, owed, owed_all, Represents,
}

module _ (j : String) where
  any-last :
      (es : List Entry) (e : Entry)
      → e.session_id ≡ j
      → any (has_key entry_key j) (es ++ e ∷ []) ≡ true
  any-last [] e h = ground (arith, str_eq_iff e.session_id j)
  any-last (x ∷ es) e h = ground (arith, any-last es e h)

  fetch-last :
      (k : String) (es : List Entry)
      → items_of (fetch entry_key k (es ++ record { session_id = j; waiting = [] } ∷ []))
        ≡ items_of (fetch entry_key k es)
  fetch-last k [] = ground arith
  fetch-last k (e ∷ es) = ground (arith, fetch-last k es)

  setdefault-any : (es : List Entry) → any (has_key entry_key j) (setdefault j es) ≡ true
  unfolding setdefault
  setdefault-any es = elim (Bool-cases (any (has_key entry_key j) es)) [
    | inl t ↦ rw t t
    | inr f ↦ rw f (any-last es (record { session_id = j; waiting = [] }) refl)
  ]

  fetch-setdefault :
      (k : String) (es : List Entry)
      → items_of (fetch entry_key k (setdefault j es)) ≡ items_of (fetch entry_key k es)
  unfolding setdefault
  fetch-setdefault k es = elim (Bool-cases (any (has_key entry_key j) es)) [
    | inl t ↦ rw t refl
    | inr f ↦ rw f (fetch-last k es)
  ]

  fetch-put :
      (k : String) (new : List String) (es : List Entry)
      → any (has_key entry_key j) es ≡ true
      → items_of (fetch entry_key k (update (has_key entry_key j) (put_items new) es))
        ≡ (if str_eq j k then new else items_of (fetch entry_key k es))
  fetch-put k new es here =
      rw (fetch-update entry_key j k (put_items new) es (λ e. refl))
        (elim (Bool-cases (str_eq j k)) [
          | inl t ↦
              let (e, found) = fetch_total entry_key j es here in
              rw t
                (rw (subst (λ i. fetch entry_key i es ≡ some e) ((str_eq_iff j k).0 t) found) refl)
          | inr f ↦ rw f refl
        ])

  fetch-removed :
      (k : String) (es : List Entry)
      → items_of (fetch entry_key k (select (λ e. not (has_key entry_key j e)) es))
        ≡ (if str_eq j k then [] else items_of (fetch entry_key k es))
  fetch-removed k [] = ground arith
  fetch-removed k (e ∷ es) = ground (
    arith,
    fetch-removed k es,
    str_eq_iff j k,
    str_eq_iff e.session_id j,
    str_eq_iff e.session_id k,
  )

module _ (n : ℕ) (bounded : 0 < n) (q : UserInputQueue) (log : Log) (r : Represents n q log) where
  -- Texts put under a session, which may be new, in a queue that represents `log`.
  stored-Represents :
      (s : String) (texts new : List String)
      → new ≡ newest n texts
      → Represents n
          (replace s new (record q { queues = setdefault s q.queues }))
          (with_log s texts log)
  unfolding peek
  stored-Represents s texts new e = record {
    bound = r.bound;
    holds = λ k.
        fetch-put s k new (setdefault s q.queues) (setdefault-any s q.queues)
        ∙ elim (Bool-cases (str_eq s k)) [
          | inl t ↦ rw t e
          | inr f ↦ rw f (fetch-setdefault s k q.queues ∙ r.holds k)
        ];
  }

  held : (s : String) → items_of (fetch entry_key s (setdefault s q.queues)) ≡ newest n (log s)
  unfolding peek
  held s = fetch-setdefault s s q.queues ∙ r.holds s

  depth_lem : (s : String) → depth s q ≡ min n (length (log s))
  unfolding depth peek
  depth_lem s = ap length (r.holds s) ∙ length-newest n (log s)

  -- A session whose entry is empty or missing after the change, and the others as they were.
  emptied-Represents :
      (s : String) (es : List Entry)
      → ((k : String)
          → items_of (fetch entry_key k es)
            ≡ (if str_eq s k then [] else items_of (fetch entry_key k q.queues)))
      → Represents n (record q { queues = es }) (with_log s [] log)
  unfolding peek
  emptied-Represents s es change = record {
    bound = r.bound;
    holds = λ k. change k ∙ elim (Bool-cases (str_eq s k)) [
      | inl t ↦ rw t (sym (newest-nil n))
      | inr f ↦ rw f (r.holds k)
    ];
  }

  waiting-any :
      (s x : String) (l : List String)
      → items_of (fetch entry_key s q.queues) ≡ x ∷ l
      → any (has_key entry_key s) q.queues ≡ true
  waiting-any s x l e = elim (Option-cases (fetch entry_key s q.queues)) [
    | inl missing ↦ let no : [] ≡ x ∷ l = rw missing at e in cc (no)
    | inr (entry, found) ↦ fetch-any entry_key s entry q.queues found
  ]

  drain_items_lem :
      (s : String) (l : List String)
      → items_of (fetch entry_key s q.queues) ≡ l
      → ((drain_items s l q).0 ≡ newest n (log s))
        × Represents n (drain_items s l q).1 (with_log s [] log)
  unfolding peek
  drain_items_lem s [] e = (
    sym e ∙ r.holds s,
    emptied-Represents s q.queues (λ k. elim (Bool-cases (str_eq s k)) [
      | inl t ↦
          rw t (subst (λ i. items_of (fetch entry_key i q.queues) ≡ []) ((str_eq_iff s k).0 t) e)
      | inr f ↦ rw f refl
    ]),
  )
  drain_items_lem s (x ∷ l) e = (
    sym e ∙ r.holds s,
    emptied-Represents s _ (λ k. fetch-put s k [] q.queues (waiting-any s x l e)),
  )

  drain_lem :
      (s : String)
      → ((drain s q).0 ≡ newest n (log s)) × Represents n (drain s q).1 (with_log s [] log)
  unfolding drain peek
  drain_lem s = drain_items_lem s (items_of (fetch entry_key s q.queues)) refl

  perform_lem :
      (c : Call)
      → ((perform c q).0 ≡ (owed n c log).0) × Represents n (perform c q).1 (owed n c log).1
  unfolding enqueue extend clear depth
  perform_lem (enqueued s text) = elim (Bool-cases (is_empty (strip text))) [
    | inl t ↦ rw t (refl, r)
    | inr f ↦ rw f (
      refl,
      stored-Represents s (log s ++ strip text ∷ []) _
          (rw r.bound (rw (held s) (push-newest n (strip text) (log s) bounded))),
    )
  ]
  perform_lem (extended s texts) =
      let done : push_all q.max_per_session texts
            (items_of (fetch entry_key s (setdefault s q.queues)))
          ≡ (length (cleaned texts), newest n (log s ++ cleaned texts)) =
        rw r.bound (rw (held s) (push_all-newest n texts (log s) bounded)) in
      (
        ap (λ d. number d.0) done,
        stored-Represents s (log s ++ cleaned texts) _ (ap (λ d. d.1) done),
      )
  perform_lem (drained s) = let (e, h) = drain_lem s in (ap items e, h)
  perform_lem (peeked s) = (ap items (r.holds s), r)
  perform_lem (measured s) = (ap number (depth_lem s), r)
  perform_lem (cleared s) =
      (ap number (depth_lem s), emptied-Represents s _ (λ k. fetch-removed s k q.queues))

perform_all_lem :
    (n : ℕ) (calls : List Call) (q : UserInputQueue) (log : Log)
    → 0 < n
    → Represents n q log
    → ((perform_all calls q).0 ≡ (owed_all n calls log).0)
      × Represents n (perform_all calls q).1 (owed_all n calls log).1
perform_all_lem n [] q log positive r = (refl, r)
perform_all_lem n (c ∷ calls) q log positive r =
    let (e, r') = perform_lem n positive q log r c in
    let (es, rest) = perform_all_lem n calls (perform c q).1 (owed n c log).1 positive r' in
    (rw e (rw es refl), rest)

abbrev pub no_log : Log
no_log s = []

init-Represents :
    (n : ℕ) (q : UserInputQueue) → init (pos n) ≡ ok q → (0 < n) × Represents n q no_log
unfolding init peek
init-Represents zero q e = cc
init-Represents (suc n) q e =
    let empty : UserInputQueue = record { max_per_session = suc n; queues = [] } in
    let same : empty ≡ q = cc in
    (
      omega arith,
      subst (λ made. Represents (suc n) made no_log) same
          (record { bound = refl; holds = λ s. sym (newest-nil (suc n)) }),
    )

-- A new queue with the bound `n` answers any calls, for any sessions in any order, with the replies
-- of the logs: a drain or peek gives the newest `n` messages that are not blank since the session
-- was last emptied, in the order typed, and no session sees another's.
pub init-perform_all :
    (n : ℕ) (q : UserInputQueue)
    → init (pos n) ≡ ok q
    → (calls : List Call) → (perform_all calls q).0 ≡ (owed_all n calls no_log).0
init-perform_all n q made calls =
    let (positive, start) = init-Represents n q made in
    (perform_all_lem n calls q no_log positive start).0

-- After any calls on a new queue with the bound `n`, no session has more than `n` messages waiting.
pub depth-perform_all :
    (n : ℕ) (q : UserInputQueue)
    → init (pos n) ≡ ok q
    → (calls : List Call) (session : String) → depth session (perform_all calls q).1 ≤ n
depth-perform_all n q made calls session =
    let (positive, start) = init-Represents n q made in
    let reached = (perform_all_lem n calls q no_log positive start).1 in
    ground (
      arith,
      depth_lem n positive (perform_all calls q).1 (owed_all n calls no_log).1 reached session,
    )
