-- ===== src/Coordinator/Endings.antt =====
-- src/feather/core/session/coordinator.py: the end of a call, with the eviction of its session's entries.
use feather_os.Prelude.{
  ℕ, zero, suc, ◌+◌, ◌-◌, String, Bool, true, false, ◌≡◌, refl, sym, ap, subst, ◌∙◌, Option, some,
  List, [], ◌∷◌, ◌++◌, inl, inr, Bool-cases, if◌then◌else◌, arith, str_eq, str_eq_iff, str_eq_refl,
  ◌==◌, count, count-middle, All,
}
use feather_os.Coordinator.Locks.{
  Call, Coordinator, delete, set_locked, references, drop_reference, leave,
}
use feather_os.Coordinator.Entries.{
  is_of, holds_lock, counted, references-counted, IsCoordinated, HasLock, delete-other, All-middle,
}

-- An entry that is left was there before.
deleted-was :
    {A : Type 0} (entries : String → Option A) (s i : String) (a : A)
    → delete s entries i ≡ some a
    → entries i ≡ some a
deleted-was entries s i a h = elim (Bool-cases (str_eq s i)) [
  | inl t ↦ cc (rw t at h)
  | inr f ↦ rw f at h
]

module _ (w : Coordinator) (v : IsCoordinated w) (pre post : List Call) (c : Call)
    (e : w.calls ≡ pre ++ c ∷ post) where
  split_count : (p : Call → Bool) → count p w.calls ≡ count p (c ∷ []) + count p (pre ++ post)
  split_count p = ap (count p) e ∙ count-middle p pre c post

  others_have : (HasLock w.locks c) × All (HasLock w.locks) (pre ++ post)
  others_have = All-middle (HasLock w.locks) pre post c (subst (All _) e v.locks_are)

  kept :
      (i : String)
      → str_eq c.session_id i ≡ false
      → count (is_of i) w.calls ≡ count (is_of i) (pre ++ post)
  kept i f = ground (arith, f, split_count (is_of i))

  own : count (is_of c.session_id) w.calls ≡ suc (count (is_of c.session_id) (pre ++ post))
  own = ground (arith, str_eq_refl c.session_id, split_count (is_of c.session_id))

  own_of :
      (i : String)
      → str_eq c.session_id i ≡ true
      → count (is_of i) (pre ++ post) ≡ count (is_of c.session_id) (pre ++ post)
  own_of i t = ap (λ k. count (is_of k) (pre ++ post)) (sym ((str_eq_iff c.session_id i).0 t))

  abbrev Holders : (ℕ → Bool) → Type 0
  Holders locked = (l : ℕ) → count (holds_lock l) (pre ++ post) ≡ (if locked l then 1 else 0)

  drop_reference-IsCoordinated :
      (n : ℕ) (locked : ℕ → Bool)
      → count (is_of c.session_id) (pre ++ post) ≡ n
      → Holders locked
      → IsCoordinated
          (drop_reference c.session_id n (record w { locked = locked; calls = pre ++ post }))
  drop_reference-IsCoordinated zero locked none_left holders =
      let s = c.session_id in
      record {
        references_are = λ i. elim (Bool-cases (str_eq s i)) [
          | inl t ↦ rw t (rw (own_of i t ∙ none_left) refl)
          | inr f ↦ rw f (v.references_are i ∙ ap counted (kept i f))
        ];
        locks_are = delete-other w.locks s (pre ++ post) others_have.1 none_left;
        evicted = λ i gone. elim (Bool-cases (str_eq s i)) [
          | inl t ↦ rw t refl
          | inr f ↦ rw f (v.evicted i (kept i f ∙ gone))
        ];
        apart =
            λ i j l h k. v.apart i j l (deleted-was w.locks s i l h) (deleted-was w.locks s j l k);
        old = λ i l h. v.old i l (deleted-was w.locks s i l h);
        held = holders;
      }
  drop_reference-IsCoordinated (suc n) locked some_left holders =
      let s = c.session_id in
      record {
        references_are = λ i. elim (Bool-cases (str_eq s i)) [
          | inl t ↦ rw t (rw (own_of i t ∙ some_left) refl)
          | inr f ↦ rw f (v.references_are i ∙ ap counted (kept i f))
        ];
        locks_are = others_have.1;
        evicted = λ i gone. elim (Bool-cases (str_eq s i)) [
          | inl t ↦ let bad : ⊥ = omega (arith, own_of i t, some_left, gone) in elim bad [ ]
          | inr f ↦ v.evicted i (kept i f ∙ gone)
        ];
        apart = v.apart;
        old = v.old;
        held = holders;
      }

  remaining : references (w.refcounts c.session_id) - 1 ≡ count (is_of c.session_id) (pre ++ post)
  remaining =
      let n : references (w.refcounts c.session_id) ≡ count (is_of c.session_id) w.calls =
        ap references (v.references_are c.session_id) ∙ references-counted _ in
      omega (arith, n, own)

  -- The lock of a holder is held by no other.
  released : c.holds ≡ true → Holders (set_locked c.lock false w.locked)
  released h l = elim (Bool-cases (c.lock == l)) [
    | inl t ↦ ground (arith, h, v.held l, split_count (holds_lock l))
    | inr f ↦ ground (arith, h, v.held l, split_count (holds_lock l))
  ]

  unheld : c.holds ≡ false → Holders w.locked
  unheld h l = ground (arith, h, v.held l, split_count (holds_lock l))

  pub leave-IsCoordinated : IsCoordinated (leave c (pre ++ post) w)
  unfolding leave
  leave-IsCoordinated = elim (Bool-cases c.holds) [
    | inl t ↦ rw t (rw remaining (drop_reference-IsCoordinated _ _ refl (released t)))
    | inr f ↦ rw f (rw remaining (drop_reference-IsCoordinated _ _ refl (unheld f)))
  ]
