-- ===== src/Prelude/Predicates.antt =====
-- Statements about every row of a list.
use mathlib.Core.List.{List, [], ◌∷◌, ◌++◌}
use Prim.Native.Nat.{ℕ, zero, suc}
use mathlib.Core.Path.{◌≡◌, refl, ap}
use mathlib.Core.Logic.{◌⊎◌, inl, inr}
use feather_os.Prelude.Lists.{All, In, take, length}

module _ {A : Type 0} (P : A → Type 0) where
  pub All-append : (xs ys : List A) → All P xs → All P ys → All P (xs ++ ys)
  All-append [] ys a b = b
  All-append (x ∷ xs) ys a b = (a.0, All-append xs ys a.1 b)

  -- What is said of all of three lists in a row is said of the outer two.
  pub All-cut : (xs ys zs : List A) → All P (xs ++ (ys ++ zs)) → All P (xs ++ zs)
  All-cut [] [] zs h = h
  All-cut [] (y ∷ ys) zs h = All-cut [] ys zs h.1
  All-cut (x ∷ xs) ys zs h = (h.0, All-cut xs ys zs h.1)

pub All-map :
    {A : Type 0} (P Q : A → Type 0) (xs : List A) → ((x : A) → P x → Q x) → All P xs → All Q xs
All-map P Q [] f a = tt
All-map P Q (x ∷ xs) f a = (f x a.0, All-map P Q xs f a.1)

-- A limit cuts off only if it is reached.
pub take_full :
    {A : Type 0} (n : ℕ) (x : A) (xs : List A)
    → In x xs
    → In x (take n xs) ⊎ (length (take n xs) ≡ n)
take_full zero x xs m = inr refl
take_full (suc n) x [] m = elim m [ ]
take_full (suc n) x (y ∷ xs) (inl e) = inl (inl e)
take_full (suc n) x (y ∷ xs) (inr m) = elim (take_full n x xs m) [
  | inl i ↦ inl (inr i)
  | inr e ↦ inr (ap suc e)
]

pub All-both :
    {A : Type 0} (P Q : A → Type 0) (xs : List A) → All P xs → All Q xs → All (λ x. P x × Q x) xs
All-both P Q [] a b = tt
All-both P Q (x ∷ xs) a b = ((a.0, b.0), All-both P Q xs a.1 b.1)
