-- ===== src/Subagents/Upkeep.antt =====
-- src/feather/core/subagents/registry.py: every operation keeps the registry tidy.
use feather_os.Prelude.{
  ℕ, ◌≤◌, String, ◌≡◌, false, not, List, [], ◌∷◌, ◌++◌, Bool-cases, Option-cases, inl, inr, arith,
  str_eq, str_eq_iff, select, any, has_key, fetch, All, All-map, All-append, All-both, All-select,
  any-snoc, IsSorted-snoc, IsSorted, IsKeyed, IsKeyed-snoc, Sub, Sub-refl, Sub-select, Sub-All,
  Sub-IsSorted, Sub-IsKeyed, Sub-length, Sub-any, any-select_not,
}
use feather_os.Subagents.Registry.{
  LiveSubagent, Grave, SubagentRegistry, live_key, grave_key, unbury, register, remove,
  is_recently_exited,
}
use feather_os.Subagents.Graveyard.{by_exit, NotLive, IsTidy, Sub-evict, length-evict_above_cap}

-- No entry of the id is left.
unbury-Differs :
    (session_id : String) (graves : List Grave)
    → All (λ g. str_eq session_id g.session_id ≡ false) (unbury session_id graves)
unbury-Differs session_id graves =
    All-map _ _ (unbury session_id graves)
      (λ g h.
        ground (arith, str_eq_iff session_id g.session_id, str_eq_iff g.session_id session_id))
      (All-select (λ g. not (has_key grave_key session_id g)) graves)

-- The operations keep the registry valid.
module _ (before now : ℕ) (later : before ≤ now) (r : SubagentRegistry) (v : IsTidy before r) where
  aged : (graves : List Grave) → Sub graves r.graveyard → All (λ g. g.exited_at ≤ now) graves
  aged graves s = All-map _ _ graves (λ g p. omega arith) (Sub-All _ s v.past)

  is_recently_exited-IsTidy :
      (session_id : String) → IsTidy now (is_recently_exited session_id now r).1
  unfolding is_recently_exited
  is_recently_exited-IsTidy session_id =
      let s = Sub-evict now r.graveyard in
      record {
        keyed = v.keyed;
        graves = Sub-IsKeyed grave_key s v.graves;
        apart = Sub-All _ s v.apart;
        ordered = Sub-IsSorted by_exit s v.ordered;
        past = aged _ s;
        bounded = omega (arith, v.bounded, Sub-length s);
      }

  register-IsTidy : (l : LiveSubagent) → IsTidy now (register l r).1
  unfolding register
  register-IsTidy l = elim (Bool-cases (any (has_key live_key l.session_id) r.live)) [
    | inl taken ↦ rw taken (record {
      keyed = v.keyed;
      graves = v.graves;
      apart = v.apart;
      ordered = v.ordered;
      past = aged r.graveyard (Sub-refl r.graveyard);
      bounded = v.bounded;
    })
    | inr free ↦
        let s = Sub-select (λ g. not (has_key grave_key l.session_id g)) r.graveyard in
        rw free (record {
          keyed = IsKeyed-snoc live_key l r.live v.keyed free;
          graves = Sub-IsKeyed grave_key s v.graves;
          apart =
              All-map _ _ (unbury l.session_id r.graveyard)
                (λ g h. any-snoc live_key g.session_id l r.live h.0 h.1)
                (All-both _ _ (unbury l.session_id r.graveyard) (Sub-All _ s v.apart)
                  (unbury-Differs l.session_id r.graveyard));
          ordered = Sub-IsSorted by_exit s v.ordered;
          past = aged _ s;
          bounded = omega (arith, v.bounded, Sub-length s);
        })
  ]

  module _ (session_id : String) (exited : ℕ) (since : before ≤ exited) (till : exited ≤ now) where
    abbrev kept : List Grave
    kept = unbury session_id r.graveyard

    abbrev buried : List Grave
    buried = kept ++ record { session_id = session_id; exited_at = exited } ∷ []

    abbrev others : List LiveSubagent
    others = select (λ x. not (has_key live_key session_id x)) r.live

    Sub-kept : Sub kept r.graveyard
    Sub-kept = Sub-select (λ g. not (has_key grave_key session_id g)) r.graveyard

    buried-IsKeyed : IsKeyed grave_key buried
    buried-IsKeyed =
        IsKeyed-snoc grave_key (record { session_id = session_id; exited_at = exited }) kept
          (Sub-IsKeyed grave_key Sub-kept v.graves)
          (any-select_not (has_key grave_key session_id) _ r.graveyard (λ g h. ground arith))

    buried-NotLive : All (NotLive others) buried
    buried-NotLive =
        All-append _ kept _
          (All-map _ _ kept (λ g h. Sub-any (has_key live_key g.session_id) (Sub-select _ r.live) h)
            (Sub-All _ Sub-kept v.apart))
          (any-select_not (has_key live_key session_id) _ r.live (λ g h. ground arith), tt)

    buried-IsSorted : IsSorted by_exit buried
    buried-IsSorted =
        IsSorted-snoc by_exit kept _ (Sub-IsSorted by_exit Sub-kept v.ordered)
          (All-map _ _ kept (λ g h. ground (arith, h, since)) (Sub-All _ Sub-kept v.past))

    buried_past : All (λ g. g.exited_at ≤ now) buried
    buried_past = All-append _ kept _ (aged kept Sub-kept) (till, tt)

    remove-IsTidy : IsTidy now (remove session_id exited now r).1
    unfolding remove
    remove-IsTidy = elim (Option-cases (fetch live_key session_id r.live)) [
      | inl missing ↦ rw missing (record {
        keyed = v.keyed;
        graves = v.graves;
        apart = v.apart;
        ordered = v.ordered;
        past = aged r.graveyard (Sub-refl r.graveyard);
        bounded = v.bounded;
      })
      | inr (l, there) ↦
          let s = Sub-evict now buried in
          rw there (record {
            keyed = Sub-IsKeyed live_key (Sub-select _ r.live) v.keyed;
            graves = Sub-IsKeyed grave_key s buried-IsKeyed;
            apart = Sub-All _ s buried-NotLive;
            ordered = Sub-IsSorted by_exit s buried-IsSorted;
            past = Sub-All _ s buried_past;
            bounded = length-evict_above_cap _;
          })
    ]

-- One call at a time of the clock, which never goes back.
pub data Step (before : ℕ) (r : SubagentRegistry) : ℕ → SubagentRegistry → Type 0 where
  registered : (now : ℕ) (l : LiveSubagent) → before ≤ now → Step before r now (register l r).1
  removed :
      (exited now : ℕ) (session_id : String)
      → before ≤ exited
      → exited ≤ now
      → Step before r now (remove session_id exited now r).1
  asked :
      (now : ℕ) (session_id : String)
      → before ≤ now
      → Step before r now (is_recently_exited session_id now r).1

pub data Reach (before : ℕ) (r : SubagentRegistry) : ℕ → SubagentRegistry → Type 0 where
  here : Reach before r before r
  next :
      {now after : ℕ} {s t : SubagentRegistry}
      → Reach before r now s
      → Step now s after t
      → Reach before r after t

Step-IsTidy :
    {before now : ℕ} {r s : SubagentRegistry} → Step before r now s → IsTidy before r → IsTidy now s
Step-IsTidy {before} {r = r} (registered now l later) v = register-IsTidy before now later r v l
Step-IsTidy {before} {r = r} (removed exited now session_id since till) v =
    remove-IsTidy before now (omega arith) r v session_id exited since till
Step-IsTidy {before} {r = r} (asked now session_id later) v =
    is_recently_exited-IsTidy before now later r v session_id

-- Whatever calls are made on a valid registry, under a clock that never goes back: a child is live
-- once at most, and the graveyard has an id once at most, none of a live child, in the order of the
-- exits, none later than now, and at most graveyard_max_entries in all.
pub Reach-IsTidy :
    {before : ℕ} {r : SubagentRegistry} {now : ℕ} {s : SubagentRegistry}
    → IsTidy before r
    → Reach before r now s
    → IsTidy now s
Reach-IsTidy v here = v
Reach-IsTidy v (next r st) = Step-IsTidy st (Reach-IsTidy v r)
