-- ===== src/Coordinator/Entries.antt =====
-- src/feather/core/session/coordinator.py: what holds of the entries of the coordinator between any two
-- steps of its calls.
use feather_os.Prelude.{
  ℕ, zero, suc, ◌<◌, String, Bool, true, false, ◌&&◌, ◌≡◌, refl, sym, ap, subst, ◌∙◌, Option, none,
  some, Option-cases, List, [], ◌∷◌, ◌++◌, inl, inr, Bool-cases, if◌then◌else◌, arith, str_eq,
  str_eq_iff, str_eq_refl, ◌==◌, count, count-append, count-middle, All, All-append, All-map,
}
use feather_os.Coordinator.Locks.{
  Call, Coordinator, put, delete, set_locked, references, enter, take_lock,
}

abbrev new_call : String → ℕ → Call
new_call session_id lock = record { session_id = session_id; lock = lock; holds = false }

abbrev pub is_of : String → Call → Bool
is_of session_id c = str_eq c.session_id session_id

abbrev pub holds_lock : ℕ → Call → Bool
holds_lock lock c = c.holds && c.lock == lock

-- The references of as many calls.
abbrev pub counted : ℕ → Option ℕ
counted zero = none
counted (suc n) = some (suc n)

-- A session has an entry in both maps exactly while it has calls, and all its calls have the lock of
-- that entry, which no other session has. A lock is locked exactly while one call holds it.
pub record IsCoordinated (w : Coordinator) : Type 0 where
  pub references_are : (i : String) → w.refcounts i ≡ counted (count (is_of i) w.calls)
  pub locks_are : All (λ c. w.locks c.session_id ≡ some c.lock) w.calls
  pub evicted : (i : String) → count (is_of i) w.calls ≡ 0 → w.locks i ≡ none
  pub apart : (i j : String) (l : ℕ) → w.locks i ≡ some l → w.locks j ≡ some l → i ≡ j
  pub old : (i : String) (l : ℕ) → w.locks i ≡ some l → l < w.created
  pub held : (l : ℕ) → count (holds_lock l) w.calls ≡ (if w.locked l then 1 else 0)

module _ (locks : String → Option ℕ) where
  abbrev pub HasLock : Call → Type 0
  HasLock c = locks c.session_id ≡ some c.lock

  -- A session without an entry has no call.
  pub no_calls :
      (i : String) (calls : List Call)
      → All HasLock calls
      → locks i ≡ none
      → count (is_of i) calls ≡ 0
  no_calls i [] a h = refl
  no_calls i (c ∷ calls) a h = elim (Bool-cases (str_eq c.session_id i)) [
    | inl t ↦ cc (ap locks ((str_eq_iff c.session_id i).0 t), a.0, h)
    | inr f ↦ rw f (no_calls i calls a.1 h)
  ]

  -- An entry that is new or gone is none of a session that has one.
  put-other :
      (i k : String) (n l : ℕ) → locks i ≡ none → locks k ≡ some l → put i n locks k ≡ some l
  put-other i k n l gone h = elim (Bool-cases (str_eq i k)) [
    | inl t ↦ cc (ap locks ((str_eq_iff i k).0 t), gone, h)
    | inr f ↦ rw f h
  ]

  pub delete-other :
      (i : String) (calls : List Call)
      → All HasLock calls
      → count (is_of i) calls ≡ 0
      → All (λ c. delete i locks c.session_id ≡ some c.lock) calls
  delete-other i [] a h = tt
  delete-other i (c ∷ calls) a h = elim (Bool-cases (str_eq c.session_id i)) [
    | inl t ↦ cc (rw t at h)
    | inr f ↦
        let other : str_eq i c.session_id ≡ false =
          ground (arith, f, str_eq_iff i c.session_id, str_eq_iff c.session_id i) in
        (rw other a.0, delete-other i calls a.1 (rw f at h))
  ]

no_holders :
    (l : ℕ) (calls : List Call) → All (λ c. c.lock < l) calls → count (holds_lock l) calls ≡ 0
no_holders l [] a = refl
no_holders l (c ∷ calls) a = ground (arith, a.0, no_holders l calls a.1)

All-insert :
    (P : Call → Type 0) (pre post : List Call) (c : Call)
    → All P (pre ++ post)
    → P c
    → All P (pre ++ c ∷ post)
All-insert P [] post c a h = (h, a)
All-insert P (d ∷ pre) post c a h = (a.0, All-insert P pre post c a.1 h)

pub All-middle :
    (P : Call → Type 0) (pre post : List Call) (c : Call)
    → All P (pre ++ c ∷ post)
    → P c × All P (pre ++ post)
All-middle P [] post c a = a
All-middle P (d ∷ pre) post c a = let (h, rest) = All-middle P pre post c a.1 in (h, (a.0, rest))

pub references-counted : (n : ℕ) → references (counted n) ≡ n
references-counted zero = refl
references-counted (suc n) = refl

-- A call that ended or came is counted apart from the others.
module _ (w : Coordinator) (v : IsCoordinated w) where
  references-enter :
      (s i : String) (lock : ℕ)
      → put s (suc (references (w.refcounts s))) w.refcounts i
        ≡ counted (count (is_of i) (w.calls ++ new_call s lock ∷ []))
  references-enter s i lock =
      let more = count-append (is_of i) w.calls (new_call s lock ∷ []) in
      elim (Bool-cases (str_eq s i)) [
        | inl t ↦
            let now : count (is_of i) (w.calls ++ new_call s lock ∷ [])
                ≡ suc (count (is_of i) w.calls) =
              ground (arith, more) in
            let n : references (w.refcounts s) ≡ count (is_of i) w.calls =
              ap (λ k. references (w.refcounts k)) ((str_eq_iff s i).0 t)
              ∙ ap references (v.references_are i)
              ∙ references-counted (count (is_of i) w.calls) in
            rw t (rw (n, now) refl)
        | inr f ↦
            let now : count (is_of i) w.calls ≡ count (is_of i) (w.calls ++ new_call s lock ∷ []) =
              ground (arith, more) in
            rw f (v.references_are i ∙ ap counted now)
      ]

  -- A call that comes holds no lock.
  held-enter :
      (s : String) (l lock : ℕ)
      → count (holds_lock l) (w.calls ++ new_call s lock ∷ []) ≡ count (holds_lock l) w.calls
  held-enter s l lock = ground (arith, count-append (holds_lock l) w.calls (new_call s lock ∷ []))

  evicted-enter :
      (s i : String) (lock : ℕ)
      → count (is_of i) (w.calls ++ new_call s lock ∷ []) ≡ 0
      → (str_eq s i ≡ false) × (count (is_of i) w.calls ≡ 0)
  evicted-enter s i lock h =
      let more = count-append (is_of i) w.calls (new_call s lock ∷ []) in
      (ground (arith, more, h), omega (arith, more, h))

  -- A lock that is not yet created has no holder.
  held-created :
      (l : ℕ)
      → count (holds_lock l) w.calls ≡ (if set_locked w.created false w.locked l then 1 else 0)
  held-created l = elim (Bool-cases (w.created == l)) [
    | inl t ↦
        let p : w.created ≡ l = ground arith in
        rw t (
          no_holders l w.calls (
            All-map _ _ w.calls (λ c h. subst (λ n. c.lock < n) p (v.old c.session_id c.lock h))
              v.locks_are))
    | inr f ↦ rw f (v.held l)
  ]

  old-created : (s i : String) (l : ℕ) → put s w.created w.locks i ≡ some l → l < suc w.created
  old-created s i l h = elim (Bool-cases (str_eq s i)) [
    | inl t ↦ let p : w.created ≡ l = cc (rw t at h) in omega (arith, p)
    | inr f ↦ omega (arith, v.old i l (rw f at h))
  ]

  apart-created :
      (s i j : String) (l : ℕ)
      → put s w.created w.locks i ≡ some l
      → put s w.created w.locks j ≡ some l
      → i ≡ j
  apart-created s i j l h k = elim (Bool-cases (str_eq s i)) [
    | inl t ↦ elim (Bool-cases (str_eq s j)) [
      | inl u ↦ sym ((str_eq_iff s i).0 t) ∙ (str_eq_iff s j).0 u
      | inr g ↦
          let p : w.created ≡ l = cc (rw t at h) in
          let bad : ⊥ = omega (arith, p, v.old j l (rw g at k)) in elim bad [ ]
    ]
    | inr f ↦ elim (Bool-cases (str_eq s j)) [
      | inl u ↦
          let p : w.created ≡ l = cc (rw u at k) in
          let bad : ⊥ = omega (arith, p, v.old i l (rw f at h)) in elim bad [ ]
      | inr g ↦ v.apart i j l (rw f at h) (rw g at k)
    ]
  ]

  pub enter-IsCoordinated : (s : String) → IsCoordinated (enter s w)
  unfolding enter
  enter-IsCoordinated s = elim (Option-cases (w.locks s)) [
    | inr (lock, has) ↦ rw has (record {
      references_are = λ i. references-enter s i lock;
      locks_are = All-append _ w.calls (_ ∷ []) v.locks_are (has, tt);
      evicted = λ i none_left. v.evicted i (evicted-enter s i lock none_left).1;
      apart = v.apart;
      old = v.old;
      held = λ l. held-enter s l lock ∙ v.held l;
    })
    | inl gone ↦ rw gone (record {
      references_are = λ i. references-enter s i w.created;
      locks_are =
          All-append _ w.calls (_ ∷ [])
            (All-map _ _ w.calls (λ c h. put-other w.locks s c.session_id w.created c.lock gone h)
              v.locks_are)
            (rw (str_eq_refl s) refl, tt);
      evicted = λ i none_left.
          let (other, none_before) = evicted-enter s i w.created none_left in
          rw other (v.evicted i none_before);
      apart = apart-created s;
      old = old-created s;
      held = λ l. held-enter s l w.created ∙ held-created l;
    })
  ]

  pub takes-IsCoordinated :
      (pre post : List Call) (c : Call)
      → w.calls ≡ pre ++ c ∷ post
      → c.holds ≡ false
      → w.locked c.lock ≡ false
      → IsCoordinated (take_lock pre c post w)
  takes-IsCoordinated pre post c e h free =
      let taken : Call = record c { holds = true } in
      let (has, others) = All-middle (HasLock w.locks) pre post c (subst (All _) e v.locks_are) in
      let same : (i : String) → count (is_of i) w.calls ≡ count (is_of i) (pre ++ taken ∷ post) =
        λ i.
          ap (count (is_of i)) e
          ∙ count-middle (is_of i) pre c post
          ∙ sym (count-middle (is_of i) pre taken post) in
      record {
        references_are = λ i. v.references_are i ∙ ap counted (same i);
        locks_are = All-insert (HasLock w.locks) pre post taken others has;
        evicted = λ i none_left. v.evicted i (same i ∙ none_left);
        apart = v.apart;
        old = v.old;
        held = λ l.
            let before = ap (count (holds_lock l)) e ∙ count-middle (holds_lock l) pre c post in
            let after = count-middle (holds_lock l) pre taken post in
            elim (Bool-cases (c.lock == l)) [
              | inl t ↦
                  let p : c.lock ≡ l = ground arith in
                  let unlocked : w.locked l ≡ false = ap w.locked (sym p) ∙ free in
                  ground (arith, before, after, v.held l)
              | inr f ↦ ground (arith, before, after, v.held l)
            ];
      }
