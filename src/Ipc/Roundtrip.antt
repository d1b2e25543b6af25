-- ===== src/Ipc/Roundtrip.antt =====
-- src/feather/core/ipc/command_codec.py and event_codec.py: what was encoded is decoded.
use feather_os.Prelude.{
  String, ◌≡◌, refl, ◌∙◌, ap, false, none, str_eq, str_eq_refl, strip, is_empty, ok,
}
use feather_os.Ipc.Json.{
  Json, null, boolean, integer, float, text, array, object, Fields, no_field, JsonLibrary, get,
}
use feather_os.Ipc.Commands.{
  WorkerCommand, run, resume_on_inbox, enqueue_user_input, shutdown, reload_config, command_payload,
  encode_command, decode_command,
}
use feather_os.Ipc.Events.{RuntimeEvent, put, event_payload, encode_event, or_null, decode_event}
use feather_os.Ipc.Readings.{read_object-parsed}
use feather_os.Ipc.Grammar.{HasFields, decode_command_lem}

-- The library reads back the text that it gives to this object, and that text has no blank at its
-- ends and is not empty.
pub record ReadsBack (lib : JsonLibrary) (fields : Fields) : Type 0 where
  pub back : lib.loads (lib.dumps (object fields)) ≡ ok (object fields)
  pub tight : strip (lib.dumps (object fields)) ≡ lib.dumps (object fields)
  pub nonempty : is_empty (lib.dumps (object fields)) ≡ false

payload-HasFields : (c : WorkerCommand) → HasFields (command_payload c) (command_payload c)
payload-HasFields (run i t) = (refl, (refl, (refl, tt)))
payload-HasFields (resume_on_inbox i) = (refl, (refl, tt))
payload-HasFields (enqueue_user_input i t) = (refl, (refl, (refl, tt)))
payload-HasFields shutdown = (refl, tt)
payload-HasFields (reload_config i l r) = (refl, (refl, (refl, (refl, tt))))

-- Where the JSON library reads back the object of a command, the line of the command is decoded as
-- the command.
pub decode_command-encode_command :
    (lib : JsonLibrary) (c : WorkerCommand)
    → ReadsBack lib (command_payload c)
    → decode_command lib (encode_command lib c) ≡ ok c
unfolding encode_command
decode_command-encode_command lib c r =
    (decode_command_lem lib (encode_command lib c) c).1 (record {
      raw = command_payload c;
      nonblank = ap is_empty r.tight ∙ r.nonempty;
      parsed = ap lib.loads r.tight ∙ r.back;
      agrees = payload-HasFields c;
    })

put-same :
    (key : String) (v : Json) (fields : Fields)
    → get key fields ≡ none
    → or_null (get key (put key v fields)) ≡ v
put-same key null fields h = rw h refl
put-same key (boolean b) fields h = rw (str_eq_refl key) refl
put-same key (integer n) fields h = rw (str_eq_refl key) refl
put-same key (float t) fields h = rw (str_eq_refl key) refl
put-same key (text t) fields h = rw (str_eq_refl key) refl
put-same key (array items) fields h = rw (str_eq_refl key) refl
put-same key (object o) fields h = rw (str_eq_refl key) refl

put-other :
    (key other : String) (v : Json) (fields : Fields)
    → str_eq other key ≡ false
    → get key (put other v fields) ≡ get key fields
put-other key other null fields h = refl
put-other key other (boolean b) fields h = rw h refl
put-other key other (integer n) fields h = rw h refl
put-other key other (float t) fields h = rw h refl
put-other key other (text t) fields h = rw h refl
put-other key other (array items) fields h = rw h refl
put-other key other (object o) fields h = rw h refl

module _ (e : RuntimeEvent) where
  abbrev with_payload : Fields
  with_payload = put "payload" e.payload no_field

  abbrev with_tool_name : Fields
  with_tool_name = put "tool_name" e.tool_name with_payload

  text_back : or_null (get "text" (event_payload e)) ≡ e.text
  text_back = put-same "text" e.text with_tool_name (
      put-other "text" "tool_name" e.tool_name with_payload refl
      ∙ put-other "text" "payload" e.payload no_field refl)

  tool_name_back : or_null (get "tool_name" (event_payload e)) ≡ e.tool_name
  tool_name_back =
      ap or_null (put-other "tool_name" "text" e.text with_tool_name refl)
      ∙ put-same "tool_name" e.tool_name with_payload
          (put-other "tool_name" "payload" e.payload no_field refl)

  payload_back : or_null (get "payload" (event_payload e)) ≡ e.payload
  payload_back =
      ap or_null (
        put-other "payload" "text" e.text with_tool_name refl
        ∙ put-other "payload" "tool_name" e.tool_name with_payload refl)
      ∙ put-same "payload" e.payload no_field refl

same_event :
    (e : RuntimeEvent) (t n p : Json)
    → t ≡ e.text
    → n ≡ e.tool_name
    → p ≡ e.payload
    → ok (record { kind = e.kind; text = t; tool_name = n; payload = p }) ≡ ok e
same_event e t n p a b c = rw (a, b, c) refl

-- Where the JSON library reads back the object of an event, the line of the event is decoded as the
-- event, its absent fields included.
pub decode_event-encode_event :
    (lib : JsonLibrary) (e : RuntimeEvent)
    → ReadsBack lib (event_payload e)
    → decode_event lib (encode_event lib e) ≡ ok e
unfolding decode_event encode_event
decode_event-encode_event lib e r =
    rw
      (read_object-parsed lib (encode_event lib e) (event_payload e)
        (ap is_empty r.tight ∙ r.nonempty) (ap lib.loads r.tight ∙ r.back))
      (same_event e _ _ _ (text_back e) (tool_name_back e) (payload_back e))
