-- ===== src/Mailbox/Examples.antt =====
-- A mailbox with room for one message per recipient, and the theorems at it.
use feather_os.Prelude.{
  ◌≡◌, ◌≢◌, refl, String, true, false, ◌⊎◌, inl, none, some, [], ◌∷◌, map, min, arith, strip,
  str_leb, In, All, order_by, IsSorted, length, ok, err, value_error,
}
use feather_os.Mailbox.{
  Message, Store, Outgoing, pending, addressed, oldest_first, awaits, replies_to, pending_count,
  effective_limit, new_message, send, send_transaction, enforce_inbox_cap, inbox, mark_delivered,
  claim_reply, deliver, respond, delivered,
}
use feather_os.Mailbox.Counting.{addressed-count_new}
use feather_os.Mailbox.Lifecycle.{Evolves}
use feather_os.Mailbox.History.{
  IsValid, Reach, here, next, sent, marked, Reach-IsValid, Reach-Evolves,
}
use feather_os.Mailbox.Delivery.{
  taken_row, inbox_lem, inbox-mark_delivered, claim_reply_lem, claim_reply_once,
}
use feather_os.Mailbox.Replies.{send_answers}
use feather_os.Mailbox.Replies.Posting.{Verdict, send_lem}

abbrev question : Message
question = record {
  id = "m1";
  from_session_id = "s0";
  from_agent_name = "lead";
  to_session_id = "s1";
  to_agent_name = "explore";
  body = "where is the parser?";
  correlation_id = some "q1";
  in_reply_to = none;
  expects_response = true;
  status = pending;
  created_at = "2026-05-01T10:00:00+00:00";
  delivered_at = none;
  responded_at = none;
}

abbrev one_question : Store
one_question = record { inbox_cap = 1; messages = question ∷ [] }

abbrev answer : Outgoing
answer = record {
  from_session_id = "s1";
  from_agent_name = "explore";
  to_session_id = "s0";
  to_agent_name = "lead";
  body = " in core/parser.py ";
  expects_response = false;
  correlation_id = none;
  in_reply_to = some "q1";
}

abbrev blank : Outgoing
blank = record answer { body = "  " }

abbrev noon : String
noon = "2026-05-01T12:00:00+00:00"

abbrev answered : Store
answered = (send answer noon "m2" "c2" one_question).1

program : Unit {0}
unfolding send send_transaction enforce_inbox_cap strip order_by str_leb inbox mark_delivered
    claim_reply pending_count
program = tt

one_question-IsValid : IsValid one_question
unfolding pending_count
one_question-IsValid = record {
  positive = omega arith;
  bounded = λ session agent. addressed-count_new session agent question;
  keyed = (refl, tt);
}

calls : Reach one_question (mark_delivered ("m1" ∷ []) noon answered).1
calls = next (next here (sent answer noon "m2" "c2")) (marked ("m1" ∷ []) noon)

Reach-IsValid_example : IsValid (mark_delivered ("m1" ∷ []) noon answered).1
Reach-IsValid_example = Reach-IsValid one_question-IsValid calls

Reach-Evolves_example :
    Evolves one_question.messages (mark_delivered ("m1" ∷ []) noon answered).1.messages
Reach-Evolves_example = Reach-Evolves one_question-IsValid calls

send-answer : (send answer noon "m2" "c2" one_question).0 ≡ ok (new_message answer noon "m2" "c2")
unfolding program
send-answer = refl

send_answer_body : (new_message answer noon "m2" "c2").body ≡ "in core/parser.py"
unfolding program
send_answer_body = refl

send-blank :
    (send blank noon "m2" "c2" one_question).0
    ≡ err (value_error "agent_message body must not be empty")
unfolding program
send-blank = refl

send_taken : (send answer noon "m1" "c2" one_question).1 ≡ one_question
unfolding program
send_taken = refl

answered_rows : answered.messages ≡ respond noon question ∷ new_message answer noon "m2" "c2" ∷ []
unfolding program
answered_rows = refl

send_lem_example :
    Verdict answer noon "m2" "c2" one_question (send answer noon "m2" "c2" one_question)
send_lem_example = send_lem answer noon "m2" "c2" one_question

send_answers_example : awaits "q1" (respond noon question) ≡ false
unfolding program
send_answers_example =
    send_answers answer noon "m2" "c2" one_question (new_message answer noon "m2" "c2") "q1"
      send-answer refl refl (respond noon question) (inl refl)

inbox_lem_example :
    IsSorted oldest_first (inbox "s1" "explore" none one_question)
    × (length (inbox "s1" "explore" none one_question)
        ≡ min (effective_limit 1 none) (pending_count "s1" "explore" one_question))
    × ((m : Message)
        → In m (inbox "s1" "explore" none one_question)
        → In m one_question.messages × (addressed "s1" "explore" m ≡ true))
    × ((m : Message)
        → In m one_question.messages
        → addressed "s1" "explore" m ≡ true
        → In m (inbox "s1" "explore" none one_question)
          ⊎ All (λ x. oldest_first x m ≡ true) (inbox "s1" "explore" none one_question))
inbox_lem_example = inbox_lem "s1" "explore" one_question none

inbox-mark_delivered_example :
    pending_count "s1" "explore"
      (mark_delivered
        (map (λ (m : Message). m.id) (inbox "s1" "explore" none one_question))
        noon
        one_question).1
    ≡ 0
inbox-mark_delivered_example =
    inbox-mark_delivered "s1" "explore" noon one_question one_question-IsValid.bounded (refl, tt)

claim_answer :
    (claim_reply "s0" "lead" "q1" noon answered).0
    ≡ some (deliver noon (new_message answer noon "m2" "c2"))
unfolding program
claim_answer = refl

abbrev second : Outgoing
second = record answer { body = "and in core/lexer.py" }

-- Two replies to one question: the cap of 2 keeps both.
abbrev two_answers : Store
two_answers =
    (send second noon "m3" "c3"
      (send answer noon "m2" "c2" (record one_question { inbox_cap = 2 })).1).1

claim_second :
    (claim_reply "s0" "lead" "q1" noon (claim_reply "s0" "lead" "q1" noon two_answers).1).0
    ≡ some (deliver noon (new_message second noon "m3" "c3"))
unfolding program
claim_second = refl

claim_reply_once_example : ◌≢◌ {A = String} "m3" "m2"
claim_reply_once_example =
    claim_reply_once "s0" "lead" "q1" noon "s0" "lead" "q1" noon two_answers
      (deliver noon (new_message answer noon "m2" "c2"))
      (deliver noon (new_message second noon "m3" "c3")) (unfold program in refl) claim_second

claim_reply_lem_example :
    ((claim_reply "s0" "lead" "q1" noon answered ≡ (none, answered))
      × ((m : Message) → In m answered.messages → replies_to "s0" "lead" "q1" m ≡ false))
    ⊎ ((m : Message) × In m answered.messages
        × (replies_to "s0" "lead" "q1" m ≡ true)
        × ((x : Message)
            → In x answered.messages
            → replies_to "s0" "lead" "q1" x ≡ true
            → oldest_first m x ≡ true)
        × ((claim_reply "s0" "lead" "q1" noon answered).0
            ≡ some (record m { status = delivered; delivered_at = some noon }))
        × ((claim_reply "s0" "lead" "q1" noon answered).1
            ≡ record answered { messages = map (taken_row m.id noon) answered.messages }))
claim_reply_lem_example = claim_reply_lem "s0" "lead" "q1" noon answered
