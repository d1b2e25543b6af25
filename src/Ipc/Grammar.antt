-- ===== src/Ipc/Grammar.antt =====
-- src/feather/core/ipc/command_codec.py: which lines are read as which command.
use feather_os.Prelude.{
  String, ◌≡◌, refl, ap, subst, ◌∙◌, true, false, Bool-cases, some, List, inl, inr, str_eq,
  str_eq_iff, strip, is_empty, Result, ok,
}
use feather_os.Ipc.Json.{
  text, array, object, Fields, no_field, field, JsonLibrary, get, and_then, read_object,
}
use feather_os.Ipc.Commands.{
  WorkerCommand, run, resume_on_inbox, enqueue_user_input, shutdown, reload_config, text_items,
  command_payload, list_of_texts, text_of, or_refuse, require_str, require_str_list, read_run,
  read_resume, read_enqueue, read_reload, by_cmd, decode_object, decode_command,
}
use feather_os.Ipc.Readings.{
  and_then-ok, or_refuse-ok, text_of-some, list_of_texts-some, all_texts-text_items, read_object-ok,
  read_object-parsed,
}

-- The object has every field of the first one.
abbrev pub HasFields : Fields → Fields → Type 0
HasFields no_field raw = Unit
HasFields (field k v fields) raw = (get k raw ≡ some v) × HasFields fields raw

-- The line is an object, between blanks, that has the fields.
pub record Says (lib : JsonLibrary) (line : String) (fields : Fields) : Type 0 where
  pub raw : Fields
  pub nonblank : is_empty (strip line) ≡ false
  pub parsed : lib.loads (strip line) ≡ ok (object raw)
  pub agrees : HasFields fields raw

module _ (lib : JsonLibrary) (raw : Fields) (cmd : String) (c : WorkerCommand) where
  require_str-then :
      (key : String) (f : String → Result WorkerCommand)
      → and_then (require_str lib raw cmd key) f ≡ ok c
      → (s : String) × (get key raw ≡ some (text s)) × (f s ≡ ok c)
  require_str-then key f h =
      let (s, e, g) = and_then-ok (require_str lib raw cmd key) f c h in
      (s, text_of-some (get key raw) s (or_refuse-ok (text_of (get key raw)) _ s e), g)

  require_str_list-then :
      (key : String) (f : List String → Result WorkerCommand)
      → and_then (require_str_list lib raw cmd key) f ≡ ok c
      → (l : List String) × (get key raw ≡ some (array (text_items l))) × (f l ≡ ok c)
  require_str_list-then key f h =
      let (l, e, g) = and_then-ok (require_str_list lib raw cmd key) f c h in
      (l, list_of_texts-some (get key raw) l (or_refuse-ok (list_of_texts (get key raw)) _ l e), g)

  -- What each reader returns has its fields in the object.
  read_run-HasFields :
      get "cmd" raw ≡ some (text "run")
      → read_run lib raw cmd ≡ ok c
      → HasFields (command_payload c) raw
  read_run-HasFields k h =
      let rest : String → Result WorkerCommand =
        λ i. and_then (require_str lib raw cmd "incoming_text") (λ t. ok (run i t)) in
      let (i, a, h1) = require_str-then "session_id" rest h in
      let (t, b, h2) = require_str-then "incoming_text" (λ t. ok (run i t)) h1 in
      let is : run i t ≡ c = cc in
      subst (λ d. HasFields (command_payload d) raw) is (k, (a, (b, tt)))

  read_resume-HasFields :
      get "cmd" raw ≡ some (text "resume_on_inbox")
      → read_resume lib raw cmd ≡ ok c
      → HasFields (command_payload c) raw
  read_resume-HasFields k h =
      let (i, a, h1) = require_str-then "session_id" (λ i. ok (resume_on_inbox i)) h in
      let is : resume_on_inbox i ≡ c = cc in
      subst (λ d. HasFields (command_payload d) raw) is (k, (a, tt))

  read_enqueue-HasFields :
      get "cmd" raw ≡ some (text "enqueue_user_input")
      → read_enqueue lib raw cmd ≡ ok c
      → HasFields (command_payload c) raw
  read_enqueue-HasFields k h =
      let rest : String → Result WorkerCommand =
        λ i. and_then (require_str lib raw cmd "text") (λ t. ok (enqueue_user_input i t)) in
      let (i, a, h1) = require_str-then "session_id" rest h in
      let (t, b, h2) = require_str-then "text" (λ t. ok (enqueue_user_input i t)) h1 in
      let is : enqueue_user_input i t ≡ c = cc in
      subst (λ d. HasFields (command_payload d) raw) is (k, (a, (b, tt)))

  read_reload-HasFields :
      get "cmd" raw ≡ some (text "reload_config")
      → read_reload lib raw cmd ≡ ok c
      → HasFields (command_payload c) raw
  read_reload-HasFields k h =
      let last : String → List String → Result WorkerCommand =
        λ i l. and_then (require_str lib raw cmd "reload_class") (λ r. ok (reload_config i l r)) in
      let rest : String → Result WorkerCommand =
        λ i. and_then (require_str_list lib raw cmd "changed_paths") (last i) in
      let (i, a, h1) = require_str-then "correlation_id" rest h in
      let (l, b, h2) = require_str_list-then "changed_paths" (last i) h1 in
      let (r, d, h3) = require_str-then "reload_class" (λ r. ok (reload_config i l r)) h2 in
      let is : reload_config i l r ≡ c = cc in
      subst (λ d. HasFields (command_payload d) raw) is (k, (a, (b, (d, tt))))

  shutdown-HasFields :
      get "cmd" raw ≡ some (text "shutdown")
      → ok shutdown ≡ ok c
      → HasFields (command_payload c) raw
  shutdown-HasFields k h =
      let is : shutdown ≡ c = cc in subst (λ d. HasFields (command_payload d) raw) is (k, tt)

  -- One test of the dispatch.
  named :
      (name : String)
      → get "cmd" raw ≡ some (text cmd)
      → str_eq cmd name ≡ true
      → get "cmd" raw ≡ some (text name)
  named name k t = k ∙ ap (λ n. some (text n)) ((str_eq_iff cmd name).0 t)

  by_cmd-HasFields :
      get "cmd" raw ≡ some (text cmd)
      → by_cmd lib raw cmd ≡ ok c
      → HasFields (command_payload c) raw
  by_cmd-HasFields k h = elim (Bool-cases (str_eq cmd "run")) [
    | inl t ↦ read_run-HasFields (named "run" k t) (rw t at h)
    | inr f ↦ elim (Bool-cases (str_eq cmd "resume_on_inbox")) [
      | inl t ↦ read_resume-HasFields (named "resume_on_inbox" k t) (rw (f, t) at h)
      | inr g ↦ elim (Bool-cases (str_eq cmd "enqueue_user_input")) [
        | inl t ↦ read_enqueue-HasFields (named "enqueue_user_input" k t) (rw (f, g, t) at h)
        | inr i ↦ elim (Bool-cases (str_eq cmd "shutdown")) [
          | inl t ↦ shutdown-HasFields (named "shutdown" k t) (rw (f, g, i, t) at h)
          | inr j ↦ elim (Bool-cases (str_eq cmd "reload_config")) [
            | inl t ↦ read_reload-HasFields (named "reload_config" k t) (rw (f, g, i, j, t) at h)
            | inr l ↦ cc (rw (f, g, i, j, l) at h)
          ]
        ]
      ]
    ]
  ]

decode_object-ok :
    (lib : JsonLibrary) (raw : Fields) (c : WorkerCommand)
    → decode_object lib raw ≡ ok c
    → HasFields (command_payload c) raw
decode_object-ok lib raw c h =
    let (cmd, e, g) = and_then-ok (or_refuse (text_of (get "cmd" raw)) _) (by_cmd lib raw) c h in
    by_cmd-HasFields lib raw cmd c
      (text_of-some (get "cmd" raw) cmd (or_refuse-ok (text_of (get "cmd" raw)) _ cmd e)) g

decode_object-HasFields :
    (lib : JsonLibrary) (raw : Fields) (c : WorkerCommand)
    → HasFields (command_payload c) raw
    → decode_object lib raw ≡ ok c
decode_object-HasFields lib raw (run i t) (k, (a, (b, tt))) = rw (k, a, b) refl
decode_object-HasFields lib raw (resume_on_inbox i) (k, (a, tt)) = rw (k, a) refl
decode_object-HasFields lib raw (enqueue_user_input i t) (k, (a, (b, tt))) = rw (k, a, b) refl
decode_object-HasFields lib raw shutdown (k, tt) = rw k refl
decode_object-HasFields lib raw (reload_config i l r) (k, (a, (b, (d, tt)))) =
    rw (k, a, b, d, all_texts-text_items l) refl

-- A line is decoded as a command exactly if what is between its blanks is the text of an object that
-- has each field of the command's payload, whatever else it has.
pub decode_command_lem :
    (lib : JsonLibrary) (line : String) (c : WorkerCommand)
    → (decode_command lib line ≡ ok c → Says lib line (command_payload c))
      × (Says lib line (command_payload c) → decode_command lib line ≡ ok c)
unfolding decode_command
decode_command_lem lib line c = (
  λ h.
      let (raw, e, g) = and_then-ok (read_object lib line) (decode_object lib) c h in
      let (f, parsed) = read_object-ok lib line raw e in
      record { raw = raw; nonblank = f; parsed = parsed; agrees = decode_object-ok lib raw c g },
  λ s.
      rw (read_object-parsed lib line s.raw s.nonblank s.parsed)
        (decode_object-HasFields lib s.raw c s.agrees),
)
