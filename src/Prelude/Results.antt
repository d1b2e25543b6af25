-- ===== src/Prelude/Results.antt =====
-- Python exceptions as values. A function that may raise and that reads no state returns a `Result`;
-- a method returns a `Result` beside the state that it leaves.
use Prim.Native.String.{String}
use mathlib.Core.Path.{◌≡◌, refl}
use mathlib.Core.Logic.{◌⊎◌, inl, inr}

-- `value_error` and `runtime_error` carry the message; `integrity_error` is SQLite's refusal of a
-- row that breaks a key; `attribute_error` is a method called on None, `key_error` a missing key,
-- `type_error` a value of the wrong type, and `assertion_error` a failed assert.
pub data Error : Type 0 where
  value_error : String → Error
  runtime_error : String → Error
  integrity_error : Error
  attribute_error : Error
  key_error : String → Error
  type_error : String → Error
  assertion_error : Error

pub data Result {ℓ} (A : Type ℓ) : Type ℓ where
  ok : A → Result A
  err : Error → Result A

pub Result-cases {ℓ} :
    {A : Type ℓ} (r : Result A) → ((a : A) × (r ≡ ok a)) ⊎ ((e : Error) × (r ≡ err e))
Result-cases (ok a) = inl (a, refl)
Result-cases (err e) = inr (e, refl)
