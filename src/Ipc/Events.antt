-- ===== src/Ipc/Events.antt =====
-- src/feather/core/ipc/event_codec.py. Python's None is `null` in an optional field, which the
-- decoder takes from the line as it is.
use feather_os.Prelude.{String, Option, none, some, Result, ok}
use feather_os.Ipc.Json.{
  Json, null, object, Fields, no_field, field, JsonLibrary, get, and_then, read_object,
}
use feather_os.Ipc.Commands.{text_of, or_refuse}

pub record RuntimeEvent : Type 0 where
  pub kind : String
  pub text : Json
  pub tool_name : Json
  pub payload : Json

-- `if value is not None: payload[key] = value`
abbrev pub put : String → Json → Fields → Fields
put key null fields = fields
put key v fields = field key v fields

abbrev pub event_payload : RuntimeEvent → Fields
event_payload e =
    field "kind" (Json.text e.kind)
      (put "text" e.text (put "tool_name" e.tool_name (put "payload" e.payload no_field)))

unfoldable pub encode_event : JsonLibrary → RuntimeEvent → String
encode_event lib e = lib.dumps (object (event_payload e))

-- `raw.get(key)`
abbrev pub or_null : Option Json → Json
or_null none = null
or_null (some v) = v

abbrev pub event_of : Fields → String → Result RuntimeEvent
event_of raw kind = ok (record {
  kind = kind;
  text = or_null (get "text" raw);
  tool_name = or_null (get "tool_name" raw);
  payload = or_null (get "payload" raw);
})

unfoldable pub decode_event : JsonLibrary → String → Result RuntimeEvent
decode_event lib line = and_then (read_object lib line) (λ raw.
    and_then (or_refuse (text_of (get "kind" raw)) "missing or non-string 'kind' field")
      (event_of raw))
