-- ===== src/Prelude/Lists.antt =====
-- Lists measured by native numbers, and the predicates and queries that the components use: a
-- table is the list of its rows in the order of insertion.
use Prim.Native.Nat.{ℕ, zero, suc, ◌+◌, ◌-◌, ◌≤◌, ◌<◌, min}
use mathlib.Core.Path.{◌≡◌, refl, ap, sym, subst, ◌∙◌}
use mathlib.Core.Logic.{◌⊎◌, inl, inr}
use mathlib.Core.Bool.{Bool, true, false}
use mathlib.Core.List.{List, [], ◌∷◌, ◌++◌}
use mathlib.Core.Option.{Option, none, some}
use native.Mathlib.Omega.{arith}
use feather_os.Prelude.Tests.{if◌then◌else◌, Bool-cases}

module _ {ℓ} {A : Type ℓ} where
  abbrev pub length : List A → ℕ
  length [] = 0
  length (x ∷ xs) = suc (length xs)

  abbrev pub take : ℕ → List A → List A
  take zero xs = []
  take (suc n) [] = []
  take (suc n) (x ∷ xs) = x ∷ take n xs

  abbrev pub drop : ℕ → List A → List A
  drop zero xs = xs
  drop (suc n) [] = []
  drop (suc n) (x ∷ xs) = drop n xs

  abbrev pub head? : List A → Option A
  head? [] = none
  head? (x ∷ xs) = some x

  abbrev pub tail : List A → List A
  tail [] = []
  tail (x ∷ xs) = xs

  abbrev pub All {κ} : (A → Type κ) → List A → Type κ
  All P [] = Unit
  All P (x ∷ xs) = P x × All P xs

  -- SELECT … WHERE
  abbrev pub select : (A → Bool) → List A → List A
  select p [] = []
  select p (x ∷ xs) = if p x then x ∷ select p xs else select p xs

  -- SELECT COUNT(*) … WHERE
  abbrev pub count : (A → Bool) → List A → ℕ
  count p [] = 0
  count p (x ∷ xs) = if p x then suc (count p xs) else count p xs

  -- UPDATE … SET … WHERE
  abbrev pub update : (A → Bool) → (A → A) → List A → List A
  update p f [] = []
  update p f (x ∷ xs) = (if p x then f x else x) ∷ update p f xs

  abbrev pub any : (A → Bool) → List A → Bool
  any p [] = false
  any p (x ∷ xs) = if p x then true else any p xs

-- `x` stands in the list.
abbrev pub In : {A : Type 0} → A → List A → Type 0
In x [] = ⊥
In x (y ∷ ys) = (x ≡ y) ⊎ In x ys

module _ {ℓ} {A : Type ℓ} where
  pub length-append : (xs ys : List A) → length (xs ++ ys) ≡ length xs + length ys
  length-append [] ys = omega arith
  length-append (x ∷ xs) ys = omega (arith, length-append xs ys)

  pub length-take : (n : ℕ) (xs : List A) → length (take n xs) ≡ min n (length xs)
  length-take zero xs = omega arith
  length-take (suc n) [] = omega arith
  length-take (suc n) (x ∷ xs) = omega (arith, length-take n xs)

  pub length-drop : (n : ℕ) (xs : List A) → length (drop n xs) ≡ length xs - n
  length-drop zero xs = omega arith
  length-drop (suc n) [] = omega arith
  length-drop (suc n) (x ∷ xs) = omega (arith, length-drop n xs)

  pub take_all : (n : ℕ) (xs : List A) → length xs ≤ n → take n xs ≡ xs
  take_all zero [] h = refl
  take_all zero (x ∷ xs) h = elim h [ ]
  take_all (suc n) [] h = refl
  take_all (suc n) (x ∷ xs) h = ap (λ t. x ∷ t) (take_all n xs (omega arith))

  pub length-select : (p : A → Bool) (xs : List A) → length (select p xs) ≡ count p xs
  length-select p [] = refl
  length-select p (x ∷ xs) = ground (arith, length-select p xs)

  pub count-append : (p : A → Bool) (xs ys : List A) → count p (xs ++ ys) ≡ count p xs + count p ys
  count-append p [] ys = omega arith
  count-append p (x ∷ xs) ys = ground (arith, count-append p xs ys)

  -- One row may be counted apart from the others.
  pub count-middle :
      (p : A → Bool) (xs : List A) (x : A) (ys : List A)
      → count p (xs ++ x ∷ ys) ≡ count p (x ∷ []) + count p (xs ++ ys)
  count-middle p [] x ys = ground arith
  count-middle p (y ∷ xs) x ys = ground (arith, count-middle p xs x ys)

  pub length-update : (p : A → Bool) (f : A → A) (xs : List A) → length (update p f xs) ≡ length xs
  length-update p f [] = refl
  length-update p f (x ∷ xs) = ap suc (length-update p f xs)

  -- An update that never makes a row satisfy `q` does not raise the count of `q`.
  pub count-update_le :
      (p q : A → Bool) (f : A → A) (xs : List A)
      → ((x : A) → q (f x) ≡ true → q x ≡ true)
      → count q (update p f xs) ≤ count q xs
  count-update_le p q f [] keep = omega arith
  count-update_le p q f (x ∷ xs) keep = ground (arith, keep x, count-update_le p q f xs keep)

module _ {A : Type 0} where
  pub In-append_left : (x : A) (xs ys : List A) → In x xs → In x (xs ++ ys)
  In-append_left x [] ys m = elim m [ ]
  In-append_left x (y ∷ xs) ys (inl e) = inl e
  In-append_left x (y ∷ xs) ys (inr m) = inr (In-append_left x xs ys m)

  pub In-append_right : (x : A) (xs ys : List A) → In x ys → In x (xs ++ ys)
  In-append_right x [] ys m = m
  In-append_right x (y ∷ xs) ys m = inr (In-append_right x xs ys m)

  pub In-append : (x : A) (xs ys : List A) → In x (xs ++ ys) → In x xs ⊎ In x ys
  In-append x [] ys m = inr m
  In-append x (y ∷ xs) ys (inl e) = inl (inl e)
  In-append x (y ∷ xs) ys (inr m) = elim (In-append x xs ys m) [
    | inl l ↦ inl (inr l)
    | inr r ↦ inr r
  ]

  pub In-take : (x : A) (n : ℕ) (xs : List A) → In x (take n xs) → In x xs
  In-take x zero xs m = elim m [ ]
  In-take x (suc n) [] m = elim m [ ]
  In-take x (suc n) (y ∷ xs) (inl e) = inl e
  In-take x (suc n) (y ∷ xs) (inr m) = inr (In-take x n xs m)

  -- A row is selected exactly if it is in the table and satisfies the condition.
  pub In-select : (p : A → Bool) (x : A) (xs : List A) → In x (select p xs) → In x xs × (p x ≡ true)
  In-select p x [] m = elim m [ ]
  In-select p x (y ∷ xs) m = elim (Bool-cases (p y)) [
    | inl t ↦ elim (rw t at m) [
      | inl e ↦ (inl e, ap p e ∙ t)
      | inr r ↦ let (i, h) = In-select p x xs r in (inr i, h)
    ]
    | inr f ↦ let (i, h) = In-select p x xs (rw f at m) in (inr i, h)
  ]

  pub select-In : (p : A → Bool) (x : A) (xs : List A) → In x xs → p x ≡ true → In x (select p xs)
  select-In p x [] m h = elim m [ ]
  select-In p x (y ∷ xs) (inl e) h = rw (sym (ap p e) ∙ h) (inl e)
  select-In p x (y ∷ xs) (inr m) h = elim (Bool-cases (p y)) [
    | inl t ↦ rw t (inr (select-In p x xs m h))
    | inr f ↦ rw f (select-In p x xs m h)
  ]

  pub All-In {κ} : (P : A → Type κ) (x : A) (xs : List A) → All P xs → In x xs → P x
  All-In P x [] a m = elim m [ ]
  All-In P x (y ∷ xs) a (inl e) = subst P (sym e) a.0
  All-In P x (y ∷ xs) a (inr m) = All-In P x xs a.1 m

  pub All-tabulate {κ} : (P : A → Type κ) (xs : List A) → ((x : A) → In x xs → P x) → All P xs
  All-tabulate P [] f = tt
  All-tabulate P (x ∷ xs) f = (f x (inl refl), All-tabulate P xs (λ y m. f y (inr m)))

  -- It lowers the count if it takes one row out.
  pub count-update_lt :
      (p q : A → Bool) (f : A → A) (xs : List A) (x : A)
      → ((y : A) → q (f y) ≡ true → q y ≡ true)
      → In x xs
      → p x ≡ true
      → q x ≡ true
      → q (f x) ≡ false
      → count q (update p f xs) < count q xs
  count-update_lt p q f [] x keep m px qx fx = elim m [ ]
  count-update_lt p q f (y ∷ xs) x keep (inl e) px qx fx =
      let py = sym (ap p e) ∙ px in
      let qy = sym (ap q e) ∙ qx in
      let fy = sym (ap (λ z. q (f z)) e) ∙ fx in
      rw py (rw qy (rw fy (ground (arith, count-update_le p q f xs keep))))
  count-update_lt p q f (y ∷ xs) x keep (inr m) px qx fx =
      ground (arith, keep y, count-update_lt p q f xs x keep m px qx fx)

  pub count-pos_of_In : (p : A → Bool) (x : A) (xs : List A) → In x xs → p x ≡ true → 0 < count p xs
  count-pos_of_In p x [] m h = elim m [ ]
  count-pos_of_In p x (y ∷ xs) (inl e) h = rw (sym (ap p e) ∙ h) (omega arith)
  count-pos_of_In p x (y ∷ xs) (inr m) h = ground (arith, count-pos_of_In p x xs m h)

  pub count-update_zero :
      (p q : A → Bool) (f : A → A) (xs : List A)
      → ((x : A) → In x xs → q (if p x then f x else x) ≡ false)
      → count q (update p f xs) ≡ 0
  count-update_zero p q f [] h = refl
  count-update_zero p q f (x ∷ xs) h =
      rw (h x (inl refl)) (count-update_zero p q f xs (λ y m. h y (inr m)))

  pub any_of_In : (p : A → Bool) (x : A) (xs : List A) → In x xs → p x ≡ true → any p xs ≡ true
  any_of_In p x [] m h = elim m [ ]
  any_of_In p x (y ∷ xs) (inl e) h = rw (sym (ap p e) ∙ h)
  any_of_In p x (y ∷ xs) (inr m) h = ground (arith, any_of_In p x xs m h)

  -- A row of an updated table is a row of the table that was updated or left alone.
  pub In-update :
      (p : A → Bool) (f : A → A) (y : A) (xs : List A)
      → In y (update p f xs)
      → (x : A) × In x xs × (y ≡ (if p x then f x else x))
  In-update p f y [] m = elim m [ ]
  In-update p f y (x ∷ xs) (inl e) = (x, inl refl, e)
  In-update p f y (x ∷ xs) (inr m) = let (z, i, e) = In-update p f y xs m in (z, inr i, e)

  pub update-In :
      (p : A → Bool) (f : A → A) (x : A) (xs : List A)
      → In x xs
      → In (if p x then f x else x) (update p f xs)
  update-In p f x [] m = elim m [ ]
  update-In p f x (y ∷ xs) (inl e) = inl (ap (λ z. if p z then f z else z) e)
  update-In p f x (y ∷ xs) (inr m) = inr (update-In p f x xs m)

module _ {A : Type 0} where
  pub select-append :
      (p : A → Bool) (xs ys : List A) → select p (xs ++ ys) ≡ select p xs ++ select p ys
  select-append p [] ys = refl
  select-append p (x ∷ xs) ys = elim (Bool-cases (p x)) [
    | inl t ↦ rw t (ap (λ l. x ∷ l) (select-append p xs ys))
    | inr f ↦ rw f (select-append p xs ys)
  ]

  pub append_none : (xs : List A) → xs ++ [] ≡ xs
  append_none [] = refl
  append_none (x ∷ xs) = ap (λ l. x ∷ l) (append_none xs)

  -- No row is left where none matches.
  pub select-none : (p : A → Bool) (xs : List A) → All (λ x. p x ≡ false) xs → select p xs ≡ []
  select-none p [] a = refl
  select-none p (x ∷ xs) a = rw a.0 (select-none p xs a.1)
