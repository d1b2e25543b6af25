-- ===== src/Prelude/Sublists.antt =====
-- Some of the rows of a table, in their order.
use Prim.Native.Nat.{ℕ, zero, suc, ◌≤◌}
use Prim.Native.String.{String}
use mathlib.Core.Path.{◌≡◌, refl}
use mathlib.Core.Logic.{inl, inr}
use mathlib.Core.Bool.{Bool, true, false, ◌&&◌}
use mathlib.Core.List.{List, [], ◌∷◌, ◌++◌}
use native.Mathlib.Omega.{arith}
use feather_os.Prelude.Tests.{Bool-cases}
use feather_os.Prelude.Lists.{All, length, drop, select, any}
use feather_os.Prelude.Sorting.{IsSorted}
use feather_os.Prelude.Predicates.{All-append}
use feather_os.Prelude.Tables.{IsKeyed, has_key}

pub data Sub {A : Type 0} : List A → List A → Type 0 where
  done : Sub [] []
  keep : (x : A) {xs ys : List A} → Sub xs ys → Sub (x ∷ xs) (x ∷ ys)
  skip : (x : A) {xs ys : List A} → Sub xs ys → Sub xs (x ∷ ys)

module _ {A : Type 0} where
  pub Sub-refl : (xs : List A) → Sub xs xs
  Sub-refl [] = done
  Sub-refl (x ∷ xs) = keep x (Sub-refl xs)

  pub Sub-select : (p : A → Bool) (xs : List A) → Sub (select p xs) xs
  Sub-select p [] = done
  Sub-select p (x ∷ xs) = elim (Bool-cases (p x)) [
    | inl t ↦ rw t (keep x (Sub-select p xs))
    | inr f ↦ rw f (skip x (Sub-select p xs))
  ]

  pub Sub-drop : (n : ℕ) (xs : List A) → Sub (drop n xs) xs
  Sub-drop zero xs = Sub-refl xs
  Sub-drop (suc n) [] = done
  Sub-drop (suc n) (x ∷ xs) = skip x (Sub-drop n xs)

  pub Sub-All : (P : A → Type 0) {xs ys : List A} → Sub xs ys → All P ys → All P xs
  Sub-All P done a = tt
  Sub-All P (keep x s) a = (a.0, Sub-All P s a.1)
  Sub-All P (skip x s) a = Sub-All P s a.1

  pub Sub-IsSorted :
      (le : A → A → Bool) {xs ys : List A} → Sub xs ys → IsSorted le ys → IsSorted le xs
  Sub-IsSorted le done h = tt
  Sub-IsSorted le (keep x s) h = (Sub-All (λ y. le x y ≡ true) s h.0, Sub-IsSorted le s h.1)
  Sub-IsSorted le (skip x s) h = Sub-IsSorted le s h.1

  pub Sub-length : {xs ys : List A} → Sub xs ys → length xs ≤ length ys
  Sub-length done = omega arith
  Sub-length (keep x s) = omega (arith, Sub-length s)
  Sub-length (skip x s) = omega (arith, Sub-length s)

  pub Sub-any : (p : A → Bool) {xs ys : List A} → Sub xs ys → any p ys ≡ false → any p xs ≡ false
  Sub-any p done h = refl
  Sub-any p (keep x s) h = ground (arith, Sub-any p s)
  Sub-any p (skip x s) h = Sub-any p s (ground arith)

  pub Sub-IsKeyed :
      (key : A → String) {xs ys : List A} → Sub xs ys → IsKeyed key ys → IsKeyed key xs
  Sub-IsKeyed key done h = tt
  Sub-IsKeyed key (keep x s) h = (Sub-any (has_key key (key x)) s h.0, Sub-IsKeyed key s h.1)
  Sub-IsKeyed key (skip x s) h = Sub-IsKeyed key s h.1

-- No row that was left satisfies what the rows were chosen against.
pub any-select_not :
    {A : Type 0} (p q : A → Bool) (xs : List A)
    → ((x : A) → q x ≡ true → p x ≡ false)
    → any p (select q xs) ≡ false
any-select_not p q [] h = refl
any-select_not p q (x ∷ xs) h = ground (arith, h x, any-select_not p q xs h)

pub All-select : {A : Type 0} (p : A → Bool) (xs : List A) → All (λ x. p x ≡ true) (select p xs)
All-select p [] = tt
All-select p (x ∷ xs) = elim (Bool-cases (p x)) [
  | inl t ↦ rw t (t, All-select p xs)
  | inr f ↦ rw f (All-select p xs)
]

-- A last row that is not less than any other.
pub IsSorted-snoc :
    {A : Type 0} (le : A → A → Bool) (xs : List A) (x : A)
    → IsSorted le xs
    → All (λ y. le y x ≡ true) xs
    → IsSorted le (xs ++ x ∷ [])
IsSorted-snoc le [] x s a = (tt, tt)
IsSorted-snoc le (y ∷ xs) x s a =
    (All-append (λ z. le y z ≡ true) xs (x ∷ []) s.0 (a.0, tt), IsSorted-snoc le xs x s.1 a.1)

pub any-select :
    {A : Type 0} (p q : A → Bool) (xs : List A) → any p (select q xs) ≡ any (λ x. q x && p x) xs
any-select p q [] = refl
any-select p q (x ∷ xs) = ground (arith, any-select p q xs)
