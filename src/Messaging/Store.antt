-- ===== src/Messaging/Store.antt =====
-- src/feather/messaging/store.py: the tables `messaging_chats` and `messaging_inbound_dedup`, with the
-- records of src/feather/messaging/models.py.
use feather_os.Prelude.{
  ℕ, String, Bool, true, false, not, ◌&&◌, Option, List, [], ◌∷◌, ◌++◌, if◌then◌else◌, str_eq,
  str_leb, any, count, select, update, head?,
}

pub data Platform : Type 0 where
  telegram line whatsapp : Platform

abbrev pub platform_value : Platform → String
platform_value telegram = "telegram"
platform_value line = "line"
platform_value whatsapp = "whatsapp"

pub record ChatMapping : Type 0 where
  pub platform : Platform
  pub chat_id : String
  pub session_id : String
  pub display_name : String
  pub created_at : String
  pub updated_at : String

pub record Claim : Type 0 where
  pub platform : Platform
  pub native_message_id : String
  pub seen_at : String

pub record Db : Type 0 where
  pub chats : List ChatMapping
  pub inbound : List Claim

-- `WHERE platform = ? AND chat_id = ?`
abbrev pub is_chat : Platform → String → ChatMapping → Bool
is_chat platform chat_id c =
    str_eq (platform_value c.platform) (platform_value platform) && str_eq c.chat_id chat_id

abbrev pub is_claim : Platform → String → Claim → Bool
is_claim platform native_message_id r =
    str_eq (platform_value r.platform) (platform_value platform)
    && str_eq r.native_message_id native_message_id

unfoldable pub get_chat_mapping : Platform → String → Db → Option ChatMapping
get_chat_mapping platform chat_id db = head? (select (is_chat platform chat_id) db.chats)

abbrev pub upsert : ChatMapping → List ChatMapping → List ChatMapping
upsert c rows =
    if any (is_chat c.platform c.chat_id) rows
    then update (is_chat c.platform c.chat_id)
        (λ old. record old { display_name = c.display_name; updated_at = c.updated_at }) rows
    else rows ++ c ∷ []

unfoldable pub upsert_chat_mapping :
    Platform → (chat_id session_id display_name now : String) → Db → Option ChatMapping × Db
upsert_chat_mapping platform chat_id session_id display_name now db =
    let after = record db {
      chats =
          upsert
            (record {
              platform = platform;
              chat_id = chat_id;
              session_id = session_id;
              display_name = display_name;
              created_at = now;
              updated_at = now;
            })
            db.chats;
    } in
    (get_chat_mapping platform chat_id after, after)

unfoldable pub count_chats_for_platform : Platform → Db → ℕ
count_chats_for_platform platform db =
    count (λ c. str_eq (platform_value c.platform) (platform_value platform)) db.chats

-- The primary key refuses a second row.
unfoldable pub claim_inbound : Platform → (native_message_id now : String) → Db → Bool × Db
claim_inbound platform native_message_id now db =
    if any (is_claim platform native_message_id) db.inbound then (false, db) else (
      true,
      record db {
        inbound =
            db.inbound
            ++ record { platform = platform; native_message_id = native_message_id; seen_at = now }
              ∷ [];
      },
    )

unfoldable pub release_inbound : Platform → (native_message_id : String) → Db → Db
release_inbound platform native_message_id db = record db {
  inbound = select (λ r. not (is_claim platform native_message_id r)) db.inbound;
}

-- `cutoff` is the clock less the hours; the time texts are ordered as texts.
unfoldable pub prune_inbound_older_than : (cutoff : String) → Db → ℕ × Db
prune_inbound_older_than cutoff db =
    let old : Claim → Bool = λ r. not (str_leb cutoff r.seen_at) in
    (count old db.inbound, record db { inbound = select (λ r. not (old r)) db.inbound })
