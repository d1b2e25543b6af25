-- ===== src/Ipc/Readings.antt =====
-- src/feather/core/ipc/command_codec.py and event_codec.py: the tests on what was parsed, read
-- backwards.
use feather_os.Prelude.{
  String, ◌≡◌, refl, ap, false, Bool-cases, Option, none, some, List, [], ◌∷◌, inl, inr, strip,
  is_empty, Result, ok, err,
}
use feather_os.Ipc.Json.{
  Json, null, boolean, integer, float, text, array, object, Items, no_item, item, Fields,
  JsonLibrary, and_then, as_object, read_object,
}
use feather_os.Ipc.Commands.{text_items, all_texts, cons_text, list_of_texts, text_of, or_refuse}

pub and_then-ok :
    {A B : Type 0} (r : Result A) (f : A → Result B) (b : B)
    → and_then r f ≡ ok b
    → (a : A) × (r ≡ ok a) × (f a ≡ ok b)
and_then-ok (ok a) f b h = (a, refl, h)
and_then-ok (err e) f b h = cc

pub or_refuse-ok :
    {A : Type 0} (x : Option A) (message : String) (a : A) → or_refuse x message ≡ ok a → x ≡ some a
or_refuse-ok none message a h = cc
or_refuse-ok (some b) message a h = cc

pub text_of-some : (x : Option Json) (s : String) → text_of x ≡ some s → x ≡ some (text s)
text_of-some none s h = cc
text_of-some (some null) s h = cc
text_of-some (some (boolean b)) s h = cc
text_of-some (some (integer n)) s h = cc
text_of-some (some (float t)) s h = cc
text_of-some (some (text t)) s h = cc
text_of-some (some (array items)) s h = cc
text_of-some (some (object fields)) s h = cc

cons_text-some :
    (v : Json) (rest : Option (List String)) (l : List String)
    → cons_text v rest ≡ some l
    → (s : String) × (m : List String) × (v ≡ text s) × (rest ≡ some m) × (l ≡ s ∷ m)
cons_text-some null rest l h = cc
cons_text-some (boolean b) rest l h = cc
cons_text-some (integer n) rest l h = cc
cons_text-some (float t) rest l h = cc
cons_text-some (text s) none l h = cc
cons_text-some (text s) (some m) l h = (s, m, refl, refl, cc)
cons_text-some (array items) rest l h = cc
cons_text-some (object fields) rest l h = cc

all_texts-some : (items : Items) (l : List String) → all_texts items ≡ some l → items ≡ text_items l
all_texts-some no_item [] h = refl
all_texts-some no_item (s ∷ l) h = cc
all_texts-some (item v items) l h =
    let (s, m, is, rest, e) = cons_text-some v (all_texts items) l h in
    rw e (rw is (ap (item (text s)) (all_texts-some items m rest)))

pub list_of_texts-some :
    (x : Option Json) (l : List String) → list_of_texts x ≡ some l → x ≡ some (array (text_items l))
list_of_texts-some none l h = cc
list_of_texts-some (some null) l h = cc
list_of_texts-some (some (boolean b)) l h = cc
list_of_texts-some (some (integer n)) l h = cc
list_of_texts-some (some (float t)) l h = cc
list_of_texts-some (some (text t)) l h = cc
list_of_texts-some (some (array items)) l h = ap (λ i. some (array i)) (all_texts-some items l h)
list_of_texts-some (some (object fields)) l h = cc

pub all_texts-text_items : (l : List String) → all_texts (text_items l) ≡ some l
all_texts-text_items [] = refl
all_texts-text_items (s ∷ l) = rw (all_texts-text_items l) refl

as_object-ok :
    (lib : JsonLibrary) (r : Result Json) (raw : Fields)
    → as_object lib r ≡ ok raw
    → r ≡ ok (object raw)
as_object-ok lib (err e) raw h = cc
as_object-ok lib (ok null) raw h = cc
as_object-ok lib (ok (boolean b)) raw h = cc
as_object-ok lib (ok (integer n)) raw h = cc
as_object-ok lib (ok (float t)) raw h = cc
as_object-ok lib (ok (text t)) raw h = cc
as_object-ok lib (ok (array items)) raw h = cc
as_object-ok lib (ok (object fields)) raw h = cc

pub read_object-ok :
    (lib : JsonLibrary) (line : String) (raw : Fields)
    → read_object lib line ≡ ok raw
    → (is_empty (strip line) ≡ false) × (lib.loads (strip line) ≡ ok (object raw))
unfolding read_object
read_object-ok lib line raw h = elim (Bool-cases (is_empty (strip line))) [
  | inl t ↦ cc (rw t at h)
  | inr f ↦ (f, as_object-ok lib (lib.loads (strip line)) raw (rw f at h))
]

pub read_object-parsed :
    (lib : JsonLibrary) (line : String) (raw : Fields)
    → is_empty (strip line) ≡ false
    → lib.loads (strip line) ≡ ok (object raw)
    → read_object lib line ≡ ok raw
unfolding read_object
read_object-parsed lib line raw f e = rw (f, e) refl
