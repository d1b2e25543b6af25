-- ===== src/Messaging/Examples.antt =====
-- The router with a few handlers, and the theorems on them.
use feather_os.Prelude.{◌≡◌, refl, true, false, none, some, [], ◌∷◌, length, strip, arith}
use feather_os.Inputs.{enqueue, push, setdefault}
use feather_os.Messaging.Store.{
  telegram, ChatMapping, get_chat_mapping, upsert_chat_mapping, claim_inbound, release_inbound,
}
use feather_os.Messaging.Router
use feather_os.Messaging.Router.{
  IncomingMessage, AgentRunResult, Pc, claiming, looking_up, creating, storing, routing, running,
  replying, Handler, Shared, Draws, World, start, select_reply_body, advance, abort, with_step,
  arrives, advances, aborts,
}
use feather_os.Messaging.Serial.{IsSerial, Reach-IsSerial}
use feather_os.Messaging.Claims.{IsClaimedOnce, Reach-IsClaimedOnce}
use feather_os.Messaging.Orphans.{Leads, storing-IsOrphaned}

abbrev hello : IncomingMessage
hello = record {
  platform = telegram;
  chat_id = "7";
  sender_display_name = "Ada";
  text = " hello ";
  native_message_id = "n1";
  reply_context = none;
}

abbrev calm : Draws
calm = record {
  now = "2026-05-01";
  new_session = "s2";
  is_session_busy = false;
  result = record { awaiting_user = true; assistant_text = " hi "; question = some "which one?" };
  send_fails = false;
}

abbrev chat : ChatMapping
chat = record {
  platform = telegram;
  chat_id = "7";
  session_id = "s1";
  display_name = "Ada";
  created_at = "2026-05-01";
  updated_at = "2026-05-01";
}

abbrev quiet : Shared
quiet = record {
  db = record { chats = chat ∷ []; inbound = [] };
  active_sessions = [];
  input_queue = record { max_per_session = 5; queues = [] };
  adapter_senders = telegram ∷ [];
  sent = [];
}

abbrev idle : World
idle = record { shared = quiet; handlers = [] }

program : Unit {0}
unfolding strip enqueue push setdefault get_chat_mapping upsert_chat_mapping claim_inbound
    release_inbound select_reply_body advance abort
program = tt

reply_with_question : select_reply_body calm.result ≡ "hi\n\nwhich one?"
unfolding program
reply_with_question = refl

-- A known chat goes straight to its session, and the reply is sent.
known_chat : (advance calm hello looking_up quiet).0 ≡ routing "s1"
unfolding program
known_chat = refl

replied : length (advance calm hello (replying calm.result) quiet).1.sent ≡ 1
unfolding program
replied = refl

-- A second delivery is dropped.
redelivered : (advance calm hello claiming (advance calm hello claiming quiet).1).0 ≡ Pc.dropped
unfolding program
redelivered = refl

idle-IsSerial : IsSerial idle
idle-IsSerial = record { counted = λ i. refl }

idle-IsClaimedOnce : IsClaimedOnce idle
idle-IsClaimedOnce = record { counted = λ p i. omega arith }

abbrev arrived : World
arrived = record idle { handlers = record { message = hello; pc = start hello } ∷ [] }

starts : start hello ≡ claiming
unfolding program
starts = refl

claims : Router.Step arrived (with_step [] [] hello (advance calm hello claiming arrived.shared))
unfolding program
claims = advances [] [] hello claiming calm refl

Reach-IsSerial_example :
    IsSerial (with_step [] [] hello (advance calm hello claiming arrived.shared))
Reach-IsSerial_example =
    Reach-IsSerial idle-IsSerial (Router.next (Router.next Router.here (arrives hello)) claims)

Reach-IsClaimedOnce_example :
    IsClaimedOnce (with_step [] [] hello (advance calm hello claiming arrived.shared))
Reach-IsClaimedOnce_example =
    Reach-IsClaimedOnce idle-IsClaimedOnce
      (Router.next (Router.next Router.here (arrives hello)) claims)

-- A handler that found no mapping, and whose session came second.
abbrev late : World
late = record idle { handlers = record { message = hello; pc = storing "s2" } ∷ [] }

abbrev stored : World
stored = with_step [] [] hello (advance calm hello (storing "s2") late.shared)

storing-IsOrphaned_example :
    ((advance calm hello (storing "s2") late.shared).0 ≡ routing "s2")
    × Leads telegram "7" "s1" stored.shared.db.chats
    × ¬ Leads telegram "7" "s2" stored.shared.db.chats
storing-IsOrphaned_example =
    storing-IsOrphaned late stored [] [] hello "s2" "s1" calm
      (record { row = chat; found = refl; is = refl }) refl Router.here
