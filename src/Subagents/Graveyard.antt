-- ===== src/Subagents/Graveyard.antt =====
-- src/feather/core/subagents/registry.py: what the registry keeps of its live children and of those
-- that exited.
use feather_os.Prelude.{
  ℕ, ◌-◌, ◌≤◌, String, ◌≡◌, refl, ap, ◌∙◌, Bool, true, false, ◌&&◌, List, [], ◌∷◌, leb, Bool-cases,
  inl, inr, arith, length, length-drop, any, has_key, All, All-map, IsSorted, IsKeyed, asc, Sub,
  done, keep, skip, Sub-refl, Sub-drop, Sub-length,
}
use feather_os.Subagents.Registry.{
  LiveSubagent, Grave, SubagentRegistry, live_key, grave_key, graveyard_ttl, graveyard_max_entries,
  evict_expired, evict_above_cap, evict, is_recently_exited,
}

abbrev pub by_exit : Grave → Grave → Bool
by_exit = asc (λ (g : Grave). g.exited_at)

abbrev pub NotLive : List LiveSubagent → Grave → Type 0
NotLive live g = any (has_key live_key g.session_id) live ≡ false

-- A child is live once at most; the graveyard has an id once at most, none of a live child, in the
-- order of the exits, no later than now, and within its cap.
pub record IsTidy (now : ℕ) (r : SubagentRegistry) : Type 0 where
  pub keyed : IsKeyed live_key r.live
  pub graves : IsKeyed grave_key r.graveyard
  pub apart : All (NotLive r.live) r.graveyard
  pub ordered : IsSorted by_exit r.graveyard
  pub past : All (λ g. g.exited_at ≤ now) r.graveyard
  pub bounded : length r.graveyard ≤ graveyard_max_entries

pub Sub-evict_expired : (now : ℕ) (graves : List Grave) → Sub (evict_expired now graves) graves
unfolding evict_expired
Sub-evict_expired now [] = done
Sub-evict_expired now (g ∷ graves) = elim (Bool-cases (leb (now - g.exited_at) graveyard_ttl)) [
  | inl t ↦ rw t (Sub-refl (g ∷ graves))
  | inr f ↦ rw f (skip g (Sub-evict_expired now graves))
]

Sub-evict_above_cap : (graves : List Grave) → Sub (evict_above_cap graves) graves
unfolding evict_above_cap
Sub-evict_above_cap graves = Sub-drop (length graves - graveyard_max_entries) graves

pub length-evict_above_cap :
    (graves : List Grave) → length (evict_above_cap graves) ≤ graveyard_max_entries
unfolding evict_above_cap
length-evict_above_cap graves =
    omega (arith, length-drop {0} (length graves - graveyard_max_entries) graves)

Sub-trans : {A : Type 0} {xs ys zs : List A} → Sub xs ys → Sub ys zs → Sub xs zs
Sub-trans s done = s
Sub-trans (keep x s) (keep _ t) = keep x (Sub-trans s t)
Sub-trans (skip x s) (keep _ t) = skip x (Sub-trans s t)
Sub-trans s (skip x t) = skip x (Sub-trans s t)

pub Sub-evict : (now : ℕ) (graves : List Grave) → Sub (evict now graves) graves
Sub-evict now graves =
    Sub-trans (Sub-evict_above_cap (evict_expired now graves)) (Sub-evict_expired now graves)

abbrev is_fresh : ℕ → Grave → Bool
is_fresh now g = leb (now - g.exited_at) graveyard_ttl

All-is_fresh :
    (session_id : String) (now : ℕ) (graves : List Grave)
    → All (λ g. is_fresh now g ≡ true) graves
    → any (has_key grave_key session_id) graves
      ≡ any (λ g. has_key grave_key session_id g && is_fresh now g) graves
All-is_fresh session_id now [] a = refl
All-is_fresh session_id now (g ∷ graves) a =
    rw a.0 (ground (arith, All-is_fresh session_id now graves a.1))

later_is_fresh :
    (now : ℕ) (g h : Grave) → by_exit g h ≡ true → is_fresh now g ≡ true → is_fresh now h ≡ true
later_is_fresh now g h le f = ground arith

-- Dropping from the front drops exactly what is too old.
evict_expired-any :
    (session_id : String) (now : ℕ) (graves : List Grave)
    → IsSorted by_exit graves
    → any (has_key grave_key session_id) (evict_expired now graves)
      ≡ any (λ g. has_key grave_key session_id g && is_fresh now g) graves
unfolding evict_expired
evict_expired-any session_id now [] s = refl
evict_expired-any session_id now (g ∷ graves) s = elim (Bool-cases (is_fresh now g)) [
  | inl t ↦ rw t (
      ground (
        arith,
        All-is_fresh session_id now graves
            (All-map _ _ graves (λ h le. later_is_fresh now g h le t) s.0),
      ))
  | inr f ↦ rw f (ground (arith, evict_expired-any session_id now graves s.1))
]

evict_above_cap_small :
    (graves : List Grave) → length graves ≤ graveyard_max_entries → evict_above_cap graves ≡ graves
unfolding evict_above_cap
evict_above_cap_small graves h =
    let none_over : length graves - graveyard_max_entries ≡ 0 = omega arith in rw none_over

-- In a registry that is valid: an id counts as recently exited exactly if the graveyard has it with
-- an exit no older than the
-- time to live.
pub is_recently_exited_lem :
    (session_id : String) (then_now now : ℕ) (r : SubagentRegistry)
    → IsTidy then_now r
    → (is_recently_exited session_id now r).0
      ≡ any
          (λ g. has_key grave_key session_id g && leb (now - g.exited_at) graveyard_ttl)
          r.graveyard
unfolding is_recently_exited
is_recently_exited_lem session_id then_now now r v =
    ap (any (has_key grave_key session_id)) (
      evict_above_cap_small (evict_expired now r.graveyard)
        (omega (arith, v.bounded, Sub-length (Sub-evict_expired now r.graveyard))))
    ∙ evict_expired-any session_id now r.graveyard v.ordered
