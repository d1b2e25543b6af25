-- ===== src/Prelude/Text.antt =====
-- Python and SQLite text: `str.strip`, emptiness, and the order of SQLite's BINARY collation, which
-- compares UTF-8 bytes and so agrees with the order of the code points.
use Prim.Native.Nat.{ℕ, zero, suc, ◌/◌, ◌%◌, compare, Ordering}
use Prim.Native.Char.{Char, code}
use Prim.Native.String.{String, ◌++◌ as ◌<>◌}
use mathlib.Core.List.{List, [], ◌∷◌}
use mathlib.Core.Path.{◌≡◌, refl}
use mathlib.Core.Bool.{Bool, true, false, not, ◌&&◌, ◌||◌}
use mathlib.Core.Logic.{◌⊎◌, inl, inr}
use mathlib.Core.Option.{Option, none, some}
use native.Mathlib.Omega.{arith}
use feather_os.Prelude.Tests.{ℤ, pos, negsuc, leb, ltb, ◌==◌, if◌then◌else◌}

-- The characters that `str.strip()` removes: those for which `str.isspace` holds.
pub is_space : ℕ → Bool
is_space c =
    (leb 9 c && leb c 13)
    || (leb 28 c && leb c 32)
    || (c == 133)
    || (c == 160)
    || (c == 5760)
    || (leb 8192 c && leb c 8202)
    || (c == 8232)
    || (c == 8233)
    || (c == 8239)
    || (c == 8287)
    || (c == 12288)

abbrev pub is_empty : String → Bool
is_empty String.[] = true
is_empty (String.◌∷◌ c s) = false

pub lstrip : String → String
unfolding is_space
lstrip String.[] = String.[]
lstrip (String.◌∷◌ c s) = if is_space (code c) then lstrip s else String.◌∷◌ c s

abbrev keep_unless_blank : Char → String → String
keep_unless_blank c String.[] = if is_space (code c) then String.[] else String.◌∷◌ c String.[]
keep_unless_blank c (String.◌∷◌ d s) = String.◌∷◌ c (String.◌∷◌ d s)

pub rstrip : String → String
unfolding is_space
rstrip String.[] = String.[]
rstrip (String.◌∷◌ c s) = keep_unless_blank c (rstrip s)

unfoldable pub strip : String → String
unfolding lstrip rstrip
strip s = rstrip (lstrip s)

-- `_clean_optional`, which the stores apply to optional text: stripped, and none if nothing is left.
unfoldable pub clean_optional : Option String → Option String
unfolding strip
clean_optional none = none
clean_optional (some s) = let t = strip s in if is_empty t then none else some t

unfoldable pub str_leb : String → String → Bool
str_leb String.[] t = true
str_leb (String.◌∷◌ c s) String.[] = false
str_leb (String.◌∷◌ c s) (String.◌∷◌ d t) = elim (compare (code c) (code d)) [
  | Ordering.lt ↦ true
  | Ordering.eq ↦ str_leb s t
  | Ordering.gt ↦ false
]

pub str_leb_total : (s t : String) → (str_leb s t ≡ true) ⊎ (str_leb t s ≡ true)
unfolding str_leb
str_leb_total String.[] t = inl refl
str_leb_total (String.◌∷◌ c s) String.[] = inr refl
str_leb_total (String.◌∷◌ c s) (String.◌∷◌ d t) = ground (arith, str_leb_total s t)

pub str_leb_trans : (s t u : String) → str_leb s t ≡ true → str_leb t u ≡ true → str_leb s u ≡ true
unfolding str_leb
str_leb_trans String.[] t u p q = refl
str_leb_trans (String.◌∷◌ c s) String.[] u p q = cc
str_leb_trans (String.◌∷◌ c s) (String.◌∷◌ d t) String.[] p q = cc
str_leb_trans (String.◌∷◌ c s) (String.◌∷◌ d t) (String.◌∷◌ e u) p q =
    ground (arith, str_leb_trans s t u)

-- `text[:n]`
abbrev pub prefix : ℕ → String → String
prefix zero s = ""
prefix (suc n) String.[] = ""
prefix (suc n) (String.◌∷◌ c s) = String.◌∷◌ c (prefix n s)

-- `text[n:]`
abbrev pub after : ℕ → String → String
after zero s = s
after (suc n) String.[] = ""
after (suc n) (String.◌∷◌ c s) = after n s

-- `len(text)`
abbrev pub text_length : String → ℕ
text_length String.[] = 0
text_length (String.◌∷◌ c s) = suc (text_length s)

-- `text.startswith(start)`, with what follows
abbrev pub without_start : String → String → Option String
without_start String.[] s = some s
without_start (String.◌∷◌ c t) String.[] = none
without_start (String.◌∷◌ c t) (String.◌∷◌ d s) =
    if code c == code d then without_start t s else none

abbrev starts_word : String → Bool
starts_word String.[] = false
starts_word (String.◌∷◌ c s) = not (is_space (code c))

abbrev attach : Char → List String → List String
attach c [] = String.◌∷◌ c String.[] ∷ []
attach c (w ∷ ws) = String.◌∷◌ c w ∷ ws

-- `text.split()`
unfoldable pub words : String → List String
unfolding is_space
words String.[] = []
words (String.◌∷◌ c s) =
    let rest = words s in
    if is_space (code c)
    then rest
    else if starts_word s
    then attach c rest
    else String.◌∷◌ c String.[] ∷ rest

-- `separator.join(texts)`
abbrev pub join : String → List String → String
join separator [] = ""
join separator (t ∷ []) = t
join separator (t ∷ u ∷ ts) = t <> (separator <> join separator (u ∷ ts))

-- `str(n)`; a number has no more digits than it counts.
abbrev digits : ℕ → ℕ → String
digits zero n = ""
digits (suc f) n =
    let rest = digits f (n / 10) in
    let last = prefix 1 (after (n % 10) "0123456789") in if ltb n 10 then last else rest <> last

unfoldable pub int_text : ℤ → String
int_text (pos n) = digits (suc n) n
int_text (negsuc n) = "-" <> digits (suc (suc n)) (suc n)
