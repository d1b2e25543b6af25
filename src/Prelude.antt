-- ===== src/Prelude.antt =====
-- Names that every part of the development shares: those of the libraries, passed on, and those of
-- the children for tests, lists, text and sorting.
mod Tests
mod Lists
mod Text
mod Sorting
mod Results
mod Tables
mod Effects
mod Queries
mod Predicates
mod Sublists
unfoldable pub use Tests.*
unfoldable pub use Lists.*
unfoldable pub use Text.*
unfoldable pub use Sorting.*
unfoldable pub use Results.*
unfoldable pub use Tables.*
unfoldable pub use Effects.*
unfoldable pub use Queries.*
unfoldable pub use Predicates.*
unfoldable pub use Sublists.*
pub use Prim.Native.Nat.{ℕ, zero, suc, ◌+◌, ◌-◌, ◌*◌, ◌^◌, ◌≤◌, ◌<◌, min, max}
pub use Prim.Native.String.{String, ◌++◌ as ◌<>◌}
pub use mathlib.Core.Path.{◌≡◌, refl, sym, ap, ◌∙◌, subst}
pub use mathlib.Core.Logic.{◌≢◌, ◌⊎◌, inl, inr}
pub use mathlib.Core.Bool.{Bool, true, false, not, ◌&&◌, ◌||◌}
pub use mathlib.Core.Option.{Option, none, some}
pub use mathlib.Core.List.{List, [], ◌∷◌, ◌++◌, map, append_assoc}
pub use native.Mathlib.Omega.{arith}
pub use text.Mathlib.Text.{◌==◌ as str_eq}
pub use text.Mathlib.TextPositions.{eq_refl as str_eq_refl}
pub use text.Mathlib.TextEquality.{eq_iff as str_eq_iff}
