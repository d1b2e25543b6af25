-- ===== src/Subagents/Registry.antt =====
-- src/feather/core/subagents/registry.py. A call holds the lock from its start to its end, so it is
-- one step. `now` is what `time.monotonic` gave, in microseconds.
use feather_os.Prelude.{
  ℕ, ◌-◌, String, ◌<>◌, Bool, not, Option, none, some, List, [], ◌∷◌, ◌++◌, if◌then◌else◌, leb,
  length, drop, select, any, has_key, fetch, Result, ok, err, value_error,
}

-- The fields that the reaper and the tools read.
pub record LiveSubagent : Type 0 where
  pub session_id : String
  pub agent_name : String
  pub parent_session_id : String
  pub parent_agent_name : String
  pub task_text : String
  pub correlation_id : Option String
  pub task_id : Option String
  pub task_run_id : Option String

-- One entry of the graveyard.
pub record Grave : Type 0 where
  pub session_id : String
  pub exited_at : ℕ

-- Both dictionaries keep the order of insertion.
pub record SubagentRegistry : Type 0 where
  pub live : List LiveSubagent
  pub graveyard : List Grave

abbrev pub live_key : LiveSubagent → String
live_key l = l.session_id

abbrev pub grave_key : Grave → String
grave_key g = g.session_id

abbrev pub graveyard_ttl : ℕ
graveyard_ttl = 3600000000

abbrev pub graveyard_max_entries : ℕ
graveyard_max_entries = 1024

-- `self._graveyard.pop(session_id, None)`
abbrev pub unbury : String → List Grave → List Grave
unbury session_id graves = select (λ g. not (has_key grave_key session_id g)) graves

-- The first loop of `_evict_expired_locked`, from the oldest entry on.
unfoldable pub evict_expired : ℕ → List Grave → List Grave
evict_expired now [] = []
evict_expired now (g ∷ graves) =
    if leb (now - g.exited_at) graveyard_ttl then g ∷ graves else evict_expired now graves

-- The second loop, which drops the oldest entries above the cap.
unfoldable pub evict_above_cap : List Grave → List Grave
evict_above_cap graves = drop (length graves - graveyard_max_entries) graves

abbrev pub evict : ℕ → List Grave → List Grave
evict now graves = evict_above_cap (evict_expired now graves)

unfoldable pub register : LiveSubagent → SubagentRegistry → Result (Unit {0}) × SubagentRegistry
register l r =
    if any (has_key live_key l.session_id) r.live
    then (err (value_error ("sub-agent session already registered: " <> l.session_id)), r)
    else (ok tt, record { live = r.live ++ l ∷ []; graveyard = unbury l.session_id r.graveyard })

abbrev pub bury :
    Option LiveSubagent → String → (exited now : ℕ) → SubagentRegistry → SubagentRegistry
bury none session_id exited now r = r
bury (some l) session_id exited now r = record {
  live = select (λ x. not (has_key live_key session_id x)) r.live;
  graveyard = evict now (
      unbury session_id r.graveyard ++ record { session_id = session_id; exited_at = exited } ∷ []);
}

-- The clock is read for the new entry, and again for the eviction.
unfoldable pub remove :
    String → (exited now : ℕ) → SubagentRegistry → Option LiveSubagent × SubagentRegistry
remove session_id exited now r =
    let claimed = fetch live_key session_id r.live in
    (claimed, bury claimed session_id exited now r)

abbrev pub snapshot : SubagentRegistry → List LiveSubagent
snapshot r = r.live

unfoldable pub get : String → SubagentRegistry → Option LiveSubagent
get session_id r = fetch live_key session_id r.live

unfoldable pub is_recently_exited : String → ℕ → SubagentRegistry → Bool × SubagentRegistry
is_recently_exited session_id now r =
    let graves = evict now r.graveyard in
    (any (has_key grave_key session_id) graves, record r { graveyard = graves })
