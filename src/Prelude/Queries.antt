-- ===== src/Prelude/Queries.antt =====
-- What SELECT … WHERE … ORDER BY … LIMIT promises, apart from how it is computed.
use feather_os.Prelude.Tests.{Bool-cases}
use feather_os.Prelude.Lists.{
  length, take, head?, select, count, In, In-take, In-select, select-In, length-take, length-select,
  All, All-In,
}
use feather_os.Prelude.Sorting.{
  IsOrder, IsSorted, order_by, take-IsSorted, order_by-IsSorted, take_before, In-order_by,
  order_by-In, length-order_by,
}
use Prim.Native.Nat.{ℕ, min}
use mathlib.Core.Path.{◌≡◌, refl, ap, sym, ◌∙◌, subst}
use mathlib.Core.Logic.{◌⊎◌, inl, inr}
use mathlib.Core.Bool.{Bool, true, false}
use mathlib.Core.Option.{none, some}
use mathlib.Core.List.{List, [], ◌∷◌}

-- `found` is sorted; it has as many rows as there are matches, up to the limit; all of its rows
-- match; and a match that it leaves out comes after every row that it has.
pub record IsTop {A : Type 0} (le : A → A → Bool) (p : A → Bool) (n : ℕ) (rows found : List A)
    : Type 0 where
  pub sorted : IsSorted le found
  pub size : length found ≡ min n (count p rows)
  pub sound : (x : A) → In x found → In x rows × (p x ≡ true)
  pub complete : (x : A) → In x rows → p x ≡ true → In x found ⊎ All (λ y. le y x ≡ true) found

module _ {A : Type 0} (le : A → A → Bool) (o : IsOrder le) (p : A → Bool) (rows : List A) where
  abbrev matches : List A
  matches = select p rows

  pub take-IsTop : (n : ℕ) → IsTop le p n rows (take n (order_by le matches))
  take-IsTop n = record {
    sorted = take-IsSorted le n (order_by le matches) (order_by-IsSorted le o matches);
    size =
        length-take n (order_by le matches)
        ∙ ap (min n) (length-order_by le matches ∙ length-select p rows);
    sound =
        λ x i. In-select p x rows (In-order_by le x matches (In-take x n (order_by le matches) i));
    complete = λ x i h.
        take_before le n x (order_by le matches) (order_by-IsSorted le o matches)
          (order_by-In le x matches (select-In p x rows i h));
  }

  first_le : (x y : A) (l : List A) → IsSorted le (x ∷ l) → In y (x ∷ l) → le x y ≡ true
  first_le x y l s (inl e) =
      subst (λ z. le x z ≡ true) (sym e) (elim (o.total x x) [ inl t ↦ t | inr t ↦ t ])
  first_le x y l s (inr m) = All-In (λ z. le x z ≡ true) y l s.0 m

  -- LIMIT 1: the first match, or none if nothing matches.
  first_cases :
      (l : List A)
      → order_by le matches ≡ l
      → ((head? l ≡ none) × ((x : A) → In x rows → p x ≡ false))
        ⊎ ((x : A) × (head? l ≡ some x)
            × In x rows
            × (p x ≡ true)
            × ((y : A) → In y rows → p y ≡ true → le x y ≡ true))
  first_cases [] e = inl (
    refl,
    λ x i. elim (Bool-cases (p x)) [
      | inl t ↦ absurd (rw e at (order_by-In le x matches (select-In p x rows i t)))
      | inr f ↦ f
    ],
  )
  first_cases (x ∷ l) e =
      let (here, fits) =
        In-select p x rows (In-order_by le x matches (subst (In x) (sym e) (inl refl))) in
      let sorted : IsSorted le (x ∷ l) = subst (IsSorted le) e (order_by-IsSorted le o matches) in
      inr (
        x,
        refl,
        here,
        fits,
        λ y i h.
            first_le x y l sorted
              (subst (In y) e (order_by-In le y matches (select-In p y rows i h))),
      )

  pub first_lem :
      ((head? (order_by le matches) ≡ none) × ((x : A) → In x rows → p x ≡ false))
      ⊎ ((x : A) × (head? (order_by le matches) ≡ some x)
          × In x rows
          × (p x ≡ true)
          × ((y : A) → In y rows → p y ≡ true → le x y ≡ true))
  first_lem = first_cases (order_by le matches) refl
