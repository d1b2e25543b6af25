-- ===== src/Ipc/Commands.antt =====
-- src/feather/core/ipc/command_codec.py. A CommandCodecError is a ValueError.
use feather_os.Prelude.{
  String, ◌<>◌, Option, none, some, List, [], ◌∷◌, if◌then◌else◌, str_eq, value_error, Result, ok,
  err,
}
use feather_os.Ipc.Json.{
  Json, text, array, object, Items, no_item, item, Fields, no_field, field, JsonLibrary, get,
  and_then, read_object,
}

pub data WorkerCommand : Type 0 where
  run : (session_id incoming_text : String) → WorkerCommand
  resume_on_inbox : (session_id : String) → WorkerCommand
  enqueue_user_input : (session_id text : String) → WorkerCommand
  shutdown : WorkerCommand
  reload_config :
      (correlation_id : String)
      → (changed_paths : List String) → (reload_class : String) → WorkerCommand

abbrev pub text_items : List String → Items
text_items [] = no_item
text_items (s ∷ l) = item (text s) (text_items l)

abbrev pub command_payload : WorkerCommand → Fields
command_payload (run session_id incoming_text) =
    field "cmd" (text "run")
      (field "session_id" (text session_id) (field "incoming_text" (text incoming_text) no_field))
command_payload (resume_on_inbox session_id) =
    field "cmd" (text "resume_on_inbox") (field "session_id" (text session_id) no_field)
command_payload (enqueue_user_input session_id s) =
    field "cmd" (text "enqueue_user_input")
      (field "session_id" (text session_id) (field "text" (text s) no_field))
command_payload shutdown = field "cmd" (text "shutdown") no_field
command_payload (reload_config correlation_id changed_paths reload_class) =
    field "cmd" (text "reload_config") (
      field "correlation_id" (text correlation_id) (
        field "changed_paths" (array (text_items changed_paths))
          (field "reload_class" (text reload_class) no_field)))

unfoldable pub encode_command : JsonLibrary → WorkerCommand → String
encode_command lib c = lib.dumps (object (command_payload c))

-- The texts of an array that has nothing else.
abbrev pub cons_text : Json → Option (List String) → Option (List String)
cons_text (text s) (some l) = some (s ∷ l)
cons_text v l = none

abbrev pub all_texts : Items → Option (List String)
all_texts no_item = some []
all_texts (item v items) = cons_text v (all_texts items)

abbrev pub list_of_texts : Option Json → Option (List String)
list_of_texts (some (array items)) = all_texts items
list_of_texts v = none

abbrev pub text_of : Option Json → Option String
text_of (some (text s)) = some s
text_of v = none

abbrev pub or_refuse : {A : Type 0} → Option A → String → Result A
or_refuse none message = err (value_error message)
or_refuse (some a) message = ok a

module _ (lib : JsonLibrary) (raw : Fields) (cmd : String) where
  abbrev pub require_str : String → Result String
  require_str key = or_refuse (text_of (get key raw)) (lib.repr cmd <> " requires string " <> key)

  abbrev pub require_str_list : String → Result (List String)
  require_str_list key =
      or_refuse (list_of_texts (get key raw)) (lib.repr cmd <> " requires list[str] " <> key)

  abbrev pub read_run : Result WorkerCommand
  read_run = and_then (require_str "session_id") (λ session_id.
      and_then (require_str "incoming_text") (λ incoming_text. ok (run session_id incoming_text)))

  abbrev pub read_resume : Result WorkerCommand
  read_resume = and_then (require_str "session_id") (λ session_id. ok (resume_on_inbox session_id))

  abbrev pub read_enqueue : Result WorkerCommand
  read_enqueue =
      and_then (require_str "session_id")
        (λ session_id. and_then (require_str "text") (λ s. ok (enqueue_user_input session_id s)))

  abbrev pub read_reload : Result WorkerCommand
  read_reload = and_then (require_str "correlation_id") (λ correlation_id.
      and_then (require_str_list "changed_paths") (λ changed_paths.
        and_then (require_str "reload_class")
          (λ reload_class. ok (reload_config correlation_id changed_paths reload_class))))

  abbrev pub by_cmd : Result WorkerCommand
  by_cmd =
      if str_eq cmd "run"
      then read_run
      else if str_eq cmd "resume_on_inbox"
      then read_resume
      else if str_eq cmd "enqueue_user_input"
      then read_enqueue
      else if str_eq cmd "shutdown"
      then ok shutdown
      else if str_eq cmd "reload_config"
      then read_reload
      else err (value_error ("unknown 'cmd' value: " <> lib.repr cmd))

abbrev pub decode_object : JsonLibrary → Fields → Result WorkerCommand
decode_object lib raw =
    and_then (or_refuse (text_of (get "cmd" raw)) "missing or non-string 'cmd' field")
      (by_cmd lib raw)

unfoldable pub decode_command : JsonLibrary → String → Result WorkerCommand
decode_command lib line = and_then (read_object lib line) (decode_object lib)
