-- ===== src/Sessions/Examples.antt =====
-- A small session store, and the theorems at it.
use feather_os.Prelude.{
  String, str_leb, ◌≡◌, refl, false, true, none, some, [], ◌∷◌, ◌++◌, map, str_eq, order_by, ok,
  strip,
}
use feather_os.Sessions.Records.{MessageRole, user, assistant, file, SessionMessage, Attachment, Db}
use feather_os.Sessions.State.{get_session, create_session, update_session_fields}
use feather_os.Sessions.Messages.{
  NewMessage, last_sequence, insert_message, add_message, add_attachment,
  delete_message_and_attachments, list_message_attachments,
}
use feather_os.Sessions.Windows.{
  list_messages, get_latest_compact_message, list_active_messages, get_non_compact_after, reversed,
  get_recent_non_compact,
}
use feather_os.Sessions.Sequences.{IsNumbered}
use feather_os.Sessions.History
use feather_os.Sessions.History.{session_created, message_added, message_deleted, Reach-IsNumbered}
use feather_os.Sessions.Rendering.{list_attachments_for_messages, group_of}
use feather_os.Sessions.Batches.{list_attachments_for_messages_lem}
use feather_os.Sessions.Context.{IsContext, list_active_messages_lem}
use feather_os.Sessions.Appending.{add_message-list_messages}

abbrev blank : Db
blank = record { sessions = []; messages = []; attachments = [] }

abbrev opened : Db
opened = (create_session "lead" (some "s") "k" "t0" blank).1

abbrev said : MessageRole → String → NewMessage
said role content = record {
  session_id = "s";
  role = role;
  content = content;
  file_ref = none;
  is_compact = false;
}

abbrev asked : Db
asked = (add_message (said user "hello") "m1" "t1" "t1" opened).1

abbrev summed_up : Db
summed_up =
    (add_message (record (said assistant "so far") { is_compact = true }) "m2" "t2" "t2" asked).1

abbrev resumed : Db
resumed = (add_message (said user "and now?") "m3" "t3" "t3" summed_up).1

program : Unit {0}
unfolding order_by strip get_session create_session update_session_fields last_sequence
    insert_message add_message delete_message_and_attachments list_message_attachments list_messages
    get_latest_compact_message list_active_messages get_non_compact_after reversed
    get_recent_non_compact
program = tt

active_ids :
    map (λ (m : SessionMessage). m.id) (list_active_messages "s" resumed) ≡ "m2" ∷ "m3" ∷ []
unfolding program
active_ids = refl

recent_ids :
    map (λ (m : SessionMessage). m.id) (get_recent_non_compact "s" 2 resumed) ≡ "m1" ∷ "m3" ∷ []
unfolding program
recent_ids = refl

-- An anchor that was deleted counts from the start.
later_ids :
    map
      (λ (m : SessionMessage). m.id)
      (get_non_compact_after "s" (some "m1") (delete_message_and_attachments "m1" resumed).1)
    ≡ "m3" ∷ []
unfolding program
later_ids = refl

-- The last number is given again once its message is deleted.
reused_number :
    map
      (λ (m : SessionMessage). m.sequence)
      (list_messages "s"
        (add_message
          (said user "again")
          "m4"
          "t4"
          "t4"
          (delete_message_and_attachments "m3" resumed).1).1)
    ≡ 1 ∷ 2 ∷ 3 ∷ []
unfolding program
reused_number = refl

blank-IsNumbered : IsNumbered blank.messages
blank-IsNumbered = record { ids = tt; rising = tt; positive = tt }

Reach-IsNumbered_example : IsNumbered (delete_message_and_attachments "m1" asked).1.messages
Reach-IsNumbered_example = Reach-IsNumbered blank-IsNumbered (
    History.next
      (History.next (History.next History.here (session_created "lead" (some "s") "k" "t0"))
        (message_added (said user "hello") "m1" "t1" "t1"))
      (message_deleted "m1"))

list_active_messages_lem_example : IsContext "s" resumed (list_active_messages "s" resumed)
list_active_messages_lem_example = list_active_messages_lem "s" resumed

asked-IsNumbered : IsNumbered asked.messages
asked-IsNumbered = Reach-IsNumbered blank-IsNumbered (
    History.next (History.next History.here (session_created "lead" (some "s") "k" "t0"))
      (message_added (said user "hello") "m1" "t1" "t1"))

abbrev reply : SessionMessage
reply = record {
  id = "m2";
  session_id = "s";
  role = assistant;
  content = "hi";
  file_ref = none;
  is_compact = false;
  sequence = 2;
  created_at = "t2";
}

replies : (add_message (said assistant "hi") "m2" "t2" "t2" asked).0 ≡ ok reply
unfolding program
replies = refl

add_message-list_messages_example :
    (list_messages "s" (add_message (said assistant "hi") "m2" "t2" "t2" asked).1
      ≡ list_messages "s" asked ++ reply ∷ [])
    × ((other : String)
        → str_eq "s" other ≡ false
        → list_messages other (add_message (said assistant "hi") "m2" "t2" "t2" asked).1
          ≡ list_messages other asked)
add_message-list_messages_example =
    add_message-list_messages (said assistant "hi") "m2" "t2" "t2" asked reply asked-IsNumbered
      replies

abbrev sheet : String → String → String → Attachment
sheet id message_id now = record {
  id = id;
  session_id = "s";
  message_id = message_id;
  kind = file;
  mime_type = "text/csv";
  original_name = "sheet";
  filepath = "/f";
  size_bytes = 3;
  created_at = now;
}

abbrev filed : Db
filed =
    (add_attachment (sheet "a3" "m1" "t1")
      (add_attachment (sheet "a2" "m3" "t4") (add_attachment (sheet "a1" "m1" "t5") resumed).1).1).1

loaded_ids :
    map
      (λ (a : Attachment). a.id)
      (group_of "m1" (list_attachments_for_messages ("m1" ∷ "m3" ∷ []) filed))
    ≡ "a3" ∷ "a1" ∷ []
unfolding program list_attachments_for_messages add_attachment str_leb
loaded_ids = refl

list_attachments_for_messages_lem_example :
    group_of "m1" (list_attachments_for_messages ("m1" ∷ "m3" ∷ []) filed)
    ≡ list_message_attachments "m1" filed
list_attachments_for_messages_lem_example =
    list_attachments_for_messages_lem ("m1" ∷ "m3" ∷ []) "m1" filed
