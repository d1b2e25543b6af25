-- ===== src/Ipc/Json.antt =====
-- JSON values as Python has them, and what both codecs under src/feather/core/ipc do to a line before
-- they look at its keys. Python's json, `repr` and the texts of exceptions are the parameter
-- JsonLibrary.
use feather_os.Prelude.{
  ℤ, String, ◌<>◌, Bool, Option, none, some, if◌then◌else◌, str_eq, strip, is_empty, Error,
  value_error, Result, ok, err,
}

mutual
  pub data Json : Type 0 where
    null : Json
    boolean : Bool → Json
    integer : ℤ → Json
    float : String → Json
    text : String → Json
    array : Items → Json
    object : Fields → Json

  pub data Items : Type 0 where
    no_item : Items
    item : Json → Items → Items

  pub data Fields : Type 0 where
    no_field : Fields
    field : String → Json → Fields → Fields

pub record JsonLibrary : Type 0 where
  pub loads : String → Result Json
  pub dumps : Json → String
  pub repr : String → String
  pub error_text : Error → String

-- `raw.get(key)`, with none for a missing key
abbrev pub get : String → Fields → Option Json
get key no_field = none
get key (field k v fields) = if str_eq k key then some v else get key fields

-- `type(raw).__name__`
abbrev pub type_name : Json → String
type_name null = "NoneType"
type_name (boolean b) = "bool"
type_name (integer n) = "int"
type_name (float x) = "float"
type_name (text s) = "str"
type_name (array items) = "list"
type_name (object fields) = "dict"

abbrev pub and_then : {A B : Type 0} → Result A → (A → Result B) → Result B
and_then (ok a) f = f a
and_then (err e) f = err e

abbrev pub as_object : JsonLibrary → Result Json → Result Fields
as_object lib (err e) = err (value_error ("invalid JSON: " <> lib.error_text e))
as_object lib (ok (object fields)) = ok fields
as_object lib (ok v) = err (value_error ("expected JSON object, got " <> type_name v))

unfoldable pub read_object : JsonLibrary → String → Result Fields
read_object lib line =
    let stripped = strip line in
    if is_empty stripped then err (value_error "empty line") else as_object lib (lib.loads stripped)
