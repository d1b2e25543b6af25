-- ===== src/Ipc/Examples.antt =====
-- The codecs at concrete lines, with a JSON library that knows two of them.
use feather_os.Prelude.{String, ◌<>◌, ◌≡◌, refl, if◌then◌else◌, str_eq, strip, value_error, ok, err}
use feather_os.Ipc.Json.{Json, null, object, field, JsonLibrary, read_object}
use feather_os.Ipc.Commands.{WorkerCommand, run, command_payload, encode_command, decode_command}
use feather_os.Ipc.Events.{RuntimeEvent, event_payload, encode_event, decode_event}
use feather_os.Ipc.Grammar.{Says, decode_command_lem}
use feather_os.Ipc.Roundtrip.{ReadsBack, decode_event-encode_event}

abbrev hello : WorkerCommand
hello = run "s" "hello"

abbrev delta : RuntimeEvent
delta = record { kind = "delta"; text = Json.text "hi"; tool_name = null; payload = null }

abbrev hello_line : String
hello_line = "{\"cmd\":\"run\",\"session_id\":\"s\",\"incoming_text\":\"hello\"}"

abbrev delta_line : String
delta_line = "{\"kind\":\"delta\",\"text\":\"hi\"}"

abbrev kind_of : Json → String
kind_of (object (field k v fields)) = k
kind_of v = ""

abbrev library : JsonLibrary
library = record {
  loads = λ s.
      if str_eq s hello_line
      then ok (object (command_payload hello))
      else if str_eq s delta_line
      then ok (object (event_payload delta))
      else err (value_error "Expecting value");
  dumps = λ v. if str_eq (kind_of v) "cmd" then hello_line else delta_line;
  repr = λ s. "'" <> s <> "'";
  error_text = λ e. "Expecting value";
}

program : Unit {0}
unfolding strip read_object decode_command decode_event encode_command encode_event
program = tt

blank_refused : decode_command library "   " ≡ err (value_error "empty line")
unfolding program
blank_refused = refl

broken_refused : decode_event library "{" ≡ err (value_error "invalid JSON: Expecting value")
unfolding program
broken_refused = refl

event_refused :
    decode_command library delta_line ≡ err (value_error "missing or non-string 'cmd' field")
unfolding program
event_refused = refl

reads_hello : ReadsBack library (command_payload hello)
unfolding program
reads_hello = record { back = refl; tight = refl; nonempty = refl }

reads_delta : ReadsBack library (event_payload delta)
unfolding program
reads_delta = record { back = refl; tight = refl; nonempty = refl }

decode_command_lem_example :
    (decode_command library hello_line ≡ ok hello → Says library hello_line (command_payload hello))
    × (Says library hello_line (command_payload hello)
        → decode_command library hello_line ≡ ok hello)
decode_command_lem_example = decode_command_lem library hello_line hello

decode_event-encode_event_example : decode_event library (encode_event library delta) ≡ ok delta
decode_event-encode_event_example = decode_event-encode_event library delta reads_delta
