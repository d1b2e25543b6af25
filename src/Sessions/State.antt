-- ===== src/Sessions/State.antt =====
-- src/feather/storage/session_store.py: the row of a session. Each write draws its own time.
use feather_os.Prelude.{
  String, ◌<>◌, ◌++◌, Bool, true, false, Option, none, some, List, [], ◌∷◌, if◌then◌else◌, str_eq,
  strip, any, has_key, fetch, update, Exec, pure, require, refuse_if, modify, ◌>>=◌, ◌>>◌,
}
use feather_os.Ipc.Json.{Fields}
use feather_os.Tasks.Events.{or_else}
use feather_os.Tasks.Work.{Change, unset, set}
use feather_os.Sessions.Records.{SessionStatus, active, SessionRecord, Db, session_key}

unfoldable pub get_session : String → Exec Db SessionRecord
get_session session_id db =
    require (fetch session_key session_id db.sessions) ("Unknown session: " <> session_id) db

-- `session_id or str(uuid4())`
abbrev pub given_or : Option String → String → String
given_or none fresh = fresh
given_or (some s) fresh = or_else s fresh

abbrev pub new_session : String → String → String → SessionRecord
new_session id agent_name now = record {
  id = id;
  agent_name = agent_name;
  status = active;
  last_response_id = none;
  loaded_skills = [];
  active_mcp_servers = [];
  pending_inputs = [];
  created_at = now;
  updated_at = now;
  restart_requested_at = none;
  restart_reason = none;
}

abbrev pub insert_session : SessionRecord → Exec Db Unit
insert_session s = do
  refuse_if (λ db. any (has_key session_key s.id) db.sessions)
  modify (λ db. record db { sessions = db.sessions ++ s ∷ [] })

unfoldable pub create_session :
    (agent_name : String)
    → (session_id : Option String) → (fresh now : String) → Exec Db SessionRecord
create_session agent_name session_id fresh now = do
  insert_session (new_session (given_or session_id fresh) agent_name now)
  get_session (given_or session_id fresh)

unfoldable pub update_session_fields :
    String → (SessionRecord → SessionRecord) → (now : String) → Exec Db Unit
update_session_fields session_id f now = modify (λ db. record db {
  sessions =
      update (has_key session_key session_id) (λ s. record (f s) { updated_at = now }) db.sessions;
})

abbrev pub append_new : String → List String → List String
append_new name names = if any (str_eq name) names then names else names ++ name ∷ []

unfoldable pub append_loaded_skill : (session_id skill_name now : String) → Exec Db Unit
append_loaded_skill session_id skill_name now = do
  session ← get_session session_id
  let loaded_skills = append_new skill_name session.loaded_skills
  update_session_fields session_id (λ s. record s { loaded_skills = loaded_skills }) now

-- The lock makes the two statements one step.
unfoldable pub append_active_mcp_server : (session_id server_label now : String) → Exec Db Unit
append_active_mcp_server session_id server_label now = do
  session ← get_session session_id
  let servers = append_new server_label session.active_mcp_servers
  update_session_fields session_id (λ s. record s { active_mcp_servers = servers }) now

abbrev pub changed_to : {A : Type 0} → Change A → A → A
changed_to unset a = a
changed_to (set b) a = b

abbrev pub status_or : Option SessionStatus → SessionStatus → SessionStatus
status_or none status = status
status_or (some status) old = status

abbrev pub no_values : {A B C : Type 0} → Change A → Change B → Option C → Bool
no_values unset unset none = true
no_values _ _ _ = false

unfoldable pub update_response_state :
    String
    → (last_response_id : Change (Option String)) → (pending_inputs : Change (List Fields))
    → (status : Option SessionStatus) → (now : String) → Exec Db Unit
update_response_state session_id last_response_id pending_inputs status now =
    if no_values last_response_id pending_inputs status
    then pure tt
    else update_session_fields session_id
        (λ s. record s {
          last_response_id = changed_to last_response_id s.last_response_id;
          pending_inputs = changed_to pending_inputs s.pending_inputs;
          status = status_or status s.status;
        })
        now

unfoldable pub mark_restart_requested : (session_id reason requested_at now : String) → Exec Db Unit
mark_restart_requested session_id reason requested_at now =
    update_session_fields session_id
      (λ s. record s {
        restart_requested_at = some requested_at;
        restart_reason = some (or_else (strip reason) "(no reason supplied)");
      })
      now

unfoldable pub clear_restart_request : (session_id now : String) → Exec Db Unit
clear_restart_request session_id now =
    update_session_fields session_id
      (λ s. record s { restart_requested_at = none; restart_reason = none }) now

abbrev or_blank : Option String → String
or_blank none = ""
or_blank (some s) = s

abbrev pub restart_of : Option SessionRecord → Option (String × String)
restart_of none = none
restart_of (some s) = elim s.restart_requested_at [
  | none ↦ none
  | some ts ↦ some (ts, or_blank s.restart_reason)
]

unfoldable pub get_restart_request : String → Db → Option (String × String)
get_restart_request session_id db = restart_of (fetch session_key session_id db.sessions)
