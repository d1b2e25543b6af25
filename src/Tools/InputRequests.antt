-- ===== src/Tools/InputRequests.antt =====
-- src/feather/tools/task_tools.py: what `_render_input_request` makes of the arguments of a question.
-- `shown` is `str` of a value.
use feather_os.Prelude.{
  ℕ, zero, suc, String, ◌<>◌, Bool, Option, none, some, List, [], ◌∷◌, if◌then◌else◌, int_text, pos,
  type_error, Result, ok, err, prefix, after, text_length,
}
use feather_os.Ipc.Json.{
  Json, text, array, object, Items, no_item, item, Fields, no_field, field, type_name,
}
use feather_os.Tools.SendMessage.{truth}

-- `str(arguments.get(key) or "")`
abbrev pub shown_or_blank : (Json → String) → (String → Bool) → Option Json → String
shown_or_blank shown nonzero none = ""
shown_or_blank shown nonzero (some v) = if truth nonzero (some v) then shown v else ""

abbrev pub item_texts : (Json → String) → Items → List String
item_texts shown no_item = []
item_texts shown (item v items) = shown v ∷ item_texts shown items

abbrev pub keys : Fields → List String
keys no_field = []
keys (field k v fields) = k ∷ keys fields

-- The single characters, `n` of them.
abbrev pub characters : ℕ → String → List String
characters zero s = []
characters (suc n) s = prefix 1 s ∷ characters n (after 1 s)

-- What a `for` loop over a value goes through.
abbrev pub iterated : (Json → String) → Json → Result (List String)
iterated shown (array items) = ok (item_texts shown items)
iterated shown (object fields) = ok (keys fields)
iterated shown (text s) = ok (characters (text_length s) s)
iterated shown v = err (type_error ("'" <> (type_name v <> "' object is not iterable")))

abbrev pub option_texts : (Json → String) → (String → Bool) → Option Json → Result (List String)
option_texts shown nonzero none = ok []
option_texts shown nonzero (some v) = if truth nonzero (some v) then iterated shown v else ok []

abbrev pub numbered_lines : ℕ → List String → List String
numbered_lines n [] = []
numbered_lines n (o ∷ options) = (int_text (pos n) <> (". " <> o)) ∷ numbered_lines (suc n) options

abbrev pub option_lines : List String → List String
option_lines [] = []
option_lines (o ∷ options) = "options:" ∷ numbered_lines 1 (o ∷ options)

abbrev pub default_lines : Option String → List String
default_lines none = []
default_lines (some s) = ("default: " <> s) ∷ []
