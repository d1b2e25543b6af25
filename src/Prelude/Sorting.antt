-- ===== src/Prelude/Sorting.antt =====
-- ORDER BY: a stable insertion sort over a Boolean comparison, and the comparisons that the queries
-- build from keys.
use Prim.Native.Nat.{ℕ, zero, suc}
use Prim.Native.String.{String}
use mathlib.Core.Path.{◌≡◌, refl, ap, sym, ◌∙◌}
use mathlib.Core.Logic.{◌⊎◌, inl, inr}
use mathlib.Core.Bool.{Bool, true, false}
use mathlib.Core.List.{List, [], ◌∷◌}
use native.Mathlib.Omega.{arith}
use feather_os.Prelude.Tests.{leb, if◌then◌else◌, Bool-cases}
use feather_os.Prelude.Lists.{
  length, any, take, select, In, In-take, In-select, All, All-In, All-tabulate,
}
use feather_os.Prelude.Text.{str_leb, str_leb_total, str_leb_trans}

-- A comparison that can sort: any two rows compare, and comparisons chain.
pub record IsOrder {ℓ} {A : Type ℓ} (le : A → A → Bool) : Type ℓ where
  pub total : (x y : A) → (le x y ≡ true) ⊎ (le y x ≡ true)
  pub trans : (x y z : A) → le x y ≡ true → le y z ≡ true → le x z ≡ true

module _ {ℓ} {A : Type ℓ} where
  -- The first comparison decides; the second breaks its ties.
  abbrev pub then_by : (A → A → Bool) → (A → A → Bool) → A → A → Bool
  then_by le le' x y = if le x y then (if le y x then le' x y else true) else false

  abbrev pub asc_text : (A → String) → A → A → Bool
  asc_text key x y = str_leb (key x) (key y)

  abbrev pub asc : (A → ℕ) → A → A → Bool
  asc key x y = leb (key x) (key y)

  abbrev pub desc : (A → A → Bool) → A → A → Bool
  desc le x y = le y x

  pub asc_text-IsOrder : (key : A → String) → IsOrder (asc_text key)
  asc_text-IsOrder key = record {
    total = λ x y. str_leb_total (key x) (key y);
    trans = λ x y z. str_leb_trans (key x) (key y) (key z);
  }

  pub asc-IsOrder : (key : A → ℕ) → IsOrder (asc key)
  asc-IsOrder key = record { total = λ x y. ground arith; trans = λ x y z p q. ground arith }

  pub desc-IsOrder : {le : A → A → Bool} → IsOrder le → IsOrder (desc le)
  desc-IsOrder o = record { total = λ x y. o.total y x; trans = λ x y z p q. o.trans z y x q p }

  pub then_by-IsOrder :
      {le le' : A → A → Bool} → IsOrder le → IsOrder le' → IsOrder (then_by le le')
  then_by-IsOrder o o' = record {
    total = λ x y. ground (arith, o.total x y, o'.total x y);
    trans = λ x y z p q.
        ground (arith, o.trans x y z, o.trans z y x, o'.trans x y z, o.trans y z x, o.trans z x y);
  }

module _ {A : Type 0} (le : A → A → Bool) where
  abbrev insert_row : A → List A → List A
  insert_row x [] = x ∷ []
  insert_row x (y ∷ ys) = let rest = insert_row x ys in if le x y then x ∷ y ∷ ys else y ∷ rest

  unfoldable pub order_by : List A → List A
  order_by [] = []
  order_by (x ∷ xs) = insert_row x (order_by xs)

  any-insert_row : (p : A → Bool) (x : A) (ys : List A) → any p (insert_row x ys) ≡ any p (x ∷ ys)
  any-insert_row p x [] = refl
  any-insert_row p x (y ∷ ys) = ground (arith, any-insert_row p x ys)

  pub any-order_by : (p : A → Bool) (xs : List A) → any p (order_by xs) ≡ any p xs
  unfolding order_by
  any-order_by p [] = refl
  any-order_by p (x ∷ xs) = ground (arith, any-insert_row p x (order_by xs), any-order_by p xs)

  -- Every row is at most all that follow it.
  abbrev pub IsSorted : List A → Type 0
  IsSorted [] = Unit
  IsSorted (x ∷ xs) = All (λ y. le x y ≡ true) xs × IsSorted xs

  In-insert_row : (x y : A) (ys : List A) → In x (insert_row y ys) → (x ≡ y) ⊎ In x ys
  In-insert_row x y [] m = m
  In-insert_row x y (z ∷ ys) m = elim (Bool-cases (le y z)) [
    | inl t ↦ rw t at m
    | inr f ↦ elim (rw f at m) [
      | inl e ↦ inr (inl e)
      | inr r ↦ elim (In-insert_row x y ys r) [ inl e ↦ inl e | inr i ↦ inr (inr i) ]
    ]
  ]

  insert_row-In : (x y : A) (ys : List A) → (x ≡ y) ⊎ In x ys → In x (insert_row y ys)
  insert_row-In x y [] m = m
  insert_row-In x y (z ∷ ys) m = elim (Bool-cases (le y z)) [
    | inl t ↦ rw t m
    | inr f ↦ rw f (elim m [
      | inl e ↦ inr (insert_row-In x y ys (inl e))
      | inr r ↦ elim r [ inl e ↦ inl e | inr i ↦ inr (insert_row-In x y ys (inr i)) ]
    ])
  ]

  -- Sorting keeps the rows.
  pub In-order_by : (x : A) (xs : List A) → In x (order_by xs) → In x xs
  unfolding order_by
  In-order_by x [] m = m
  In-order_by x (y ∷ xs) m = elim (In-insert_row x y (order_by xs) m) [
    | inl e ↦ inl e
    | inr r ↦ inr (In-order_by x xs r)
  ]

  pub order_by-In : (x : A) (xs : List A) → In x xs → In x (order_by xs)
  unfolding order_by
  order_by-In x [] m = m
  order_by-In x (y ∷ xs) (inl e) = insert_row-In x y (order_by xs) (inl e)
  order_by-In x (y ∷ xs) (inr m) = insert_row-In x y (order_by xs) (inr (order_by-In x xs m))

  length-insert_row : (x : A) (ys : List A) → length (insert_row x ys) ≡ suc (length ys)
  length-insert_row x [] = refl
  length-insert_row x (y ∷ ys) = ground (arith, length-insert_row x ys)

  pub length-order_by : (xs : List A) → length (order_by xs) ≡ length xs
  unfolding order_by
  length-order_by [] = refl
  length-order_by (x ∷ xs) = length-insert_row x (order_by xs) ∙ ap suc (length-order_by xs)

  pub take-IsSorted : (n : ℕ) (xs : List A) → IsSorted xs → IsSorted (take n xs)
  take-IsSorted zero xs s = tt
  take-IsSorted (suc n) [] s = tt
  take-IsSorted (suc n) (x ∷ xs) s = (
    All-tabulate _ (take n xs) (λ y m. All-In _ y xs s.0 (In-take y n xs m)),
    take-IsSorted n xs s.1,
  )

  -- What a limit cuts off comes after all that it leaves.
  pub take_before :
      (n : ℕ) (x : A) (xs : List A)
      → IsSorted xs
      → In x xs
      → In x (take n xs) ⊎ All (λ y. le y x ≡ true) (take n xs)
  take_before zero x xs s m = inr tt
  take_before (suc n) x [] s m = elim m [ ]
  take_before (suc n) x (y ∷ xs) s (inl e) = inl (inl e)
  take_before (suc n) x (y ∷ xs) s (inr m) = elim (take_before n x xs s.1 m) [
    | inl i ↦ inl (inr i)
    | inr a ↦ inr (All-In _ x xs s.0 m, a)
  ]

  module _ (o : IsOrder le) where
    insert_row-IsSorted : (x : A) (ys : List A) → IsSorted ys → IsSorted (insert_row x ys)
    insert_row-IsSorted x [] s = (tt, tt)
    insert_row-IsSorted x (y ∷ ys) s = elim (Bool-cases (le x y)) [
      | inl t ↦ rw t ((t, All-tabulate _ ys (λ z m. o.trans x y z t (All-In _ z ys s.0 m))), s)
      | inr f ↦ rw f (
        All-tabulate _ (insert_row x ys) (λ z m. elim (In-insert_row z x ys m) [
          | inl e ↦ rw e (elim (o.total x y) [ inl t ↦ cc | inr t ↦ t ])
          | inr i ↦ All-In _ z ys s.0 i
        ]),
        insert_row-IsSorted x ys s.1,
      )
    ]

    pub order_by-IsSorted : (xs : List A) → IsSorted (order_by xs)
    unfolding order_by
    order_by-IsSorted [] = tt
    order_by-IsSorted (x ∷ xs) = insert_row-IsSorted x (order_by xs) (order_by-IsSorted xs)

-- Sorting and selecting may change places.
module _ {A : Type 0} (le : A → A → Bool) (o : IsOrder le) (p : A → Bool) where
  -- A row that is at most all others goes to the front.
  insert_row_first :
      (x : A) (ys : List A) → All (λ y. le x y ≡ true) ys → insert_row le x ys ≡ x ∷ ys
  insert_row_first x [] a = refl
  insert_row_first x (y ∷ ys) a = rw a.0

  select-insert_row :
      (x : A) (ys : List A)
      → IsSorted le ys
      → select p (insert_row le x ys) ≡ (if p x then insert_row le x (select p ys) else select p ys)
  select-insert_row x [] s = refl
  select-insert_row x (y ∷ ys) s = elim (Bool-cases (le x y)) [
    | inl t ↦
        let least : All (λ z. le x z ≡ true) (select p (y ∷ ys)) = All-tabulate _ _ (λ z m.
          elim (In-select p z (y ∷ ys) m).0 [
            | inl e ↦ rw e t
            | inr i ↦ o.trans x y z t (All-In _ z ys s.0 i)
          ]) in
        let first : insert_row le x (select p (y ∷ ys)) ≡ x ∷ select p (y ∷ ys) =
          insert_row_first x _ least in
        elim (Bool-cases (p x)) [ inl h ↦ rw (t, h) (sym first) | inr h ↦ rw (t, h) refl ]
    | inr f ↦
        let rest = select-insert_row x ys s.1 in
        elim (Bool-cases (p x)) [
          | inl h ↦ elim (Bool-cases (p y)) [
            | inl k ↦ rw (f, h, k) (rw f (ap (λ l. y ∷ l) (rest ∙ rw h refl)))
            | inr k ↦ rw (f, h, k) (rest ∙ rw h refl)
          ]
          | inr h ↦ elim (Bool-cases (p y)) [
            | inl k ↦ rw (f, h, k) (ap (λ l. y ∷ l) (rest ∙ rw h refl))
            | inr k ↦ rw (f, h, k) (rest ∙ rw h refl)
          ]
        ]
  ]

  pub select-order_by : (xs : List A) → select p (order_by le xs) ≡ order_by le (select p xs)
  unfolding order_by
  select-order_by [] = refl
  select-order_by (x ∷ xs) =
      select-insert_row x (order_by le xs) (order_by-IsSorted le o xs) ∙ elim (Bool-cases (p x)) [
        | inl t ↦ rw t (ap (insert_row le x) (select-order_by xs))
        | inr f ↦ rw f (select-order_by xs)
      ]
