-- ===== src/Prelude/Tables.antt =====
-- Tables with a text key, and how a table may change: rows are appended, and rows change in place
-- in the way that a relation allows.
use mathlib.Core.Path.{◌≡◌, refl, ap, sym, ◌∙◌}
use mathlib.Core.Logic.{inl, inr}
use mathlib.Core.Bool.{Bool, true, false}
use mathlib.Core.Option
use mathlib.Core.Option.{Option, none, some}
use mathlib.Core.List.{List, [], ◌∷◌, ◌++◌}
use Prim.Native.String.{String}
use native.Mathlib.Omega.{arith}
use text.Mathlib.Text.{◌==◌ as str_eq}
use text.Mathlib.TextEquality.{eq_iff as str_eq_iff}
use feather_os.Prelude.Tests.{if◌then◌else◌, Bool-cases}
use feather_os.Prelude.Lists.{In, any, select, update, head?}

module _ {A : Type 0} (key : A → String) where
  -- WHERE key = ?
  abbrev pub has_key : String → A → Bool
  has_key k x = str_eq (key x) k

  -- SELECT * … WHERE key = ?, and the first row of it
  abbrev pub fetch : String → List A → Option A
  fetch k rows = head? (select (has_key k) rows)

  -- PRIMARY KEY: no two rows have one key.
  abbrev pub IsKeyed : List A → Type 0
  IsKeyed [] = Unit
  IsKeyed (x ∷ xs) = (any (has_key (key x)) xs ≡ false) × IsKeyed xs

  pub any_key_of_In :
      (k : String) (x : A) (xs : List A) → In x xs → key x ≡ k → any (has_key k) xs ≡ true
  any_key_of_In k x [] here e = elim here [ ]
  any_key_of_In k x (y ∷ xs) (inl p) e = rw ((str_eq_iff (key y) k).1 (sym (ap key p) ∙ e))
  any_key_of_In k x (y ∷ xs) (inr here) e = ground (arith, any_key_of_In k x xs here e)

  -- A row is determined by its key.
  pub IsKeyed-unique :
      (xs : List A) (x y : A) → IsKeyed xs → In x xs → In y xs → key x ≡ key y → x ≡ y
  IsKeyed-unique [] x y k hx hy e = elim hx [ ]
  IsKeyed-unique (z ∷ xs) x y k (inl p) (inl q) e = p ∙ sym q
  IsKeyed-unique (z ∷ xs) x y k (inl p) (inr hy) e =
      cc (k.0, any_key_of_In (key z) y xs hy (sym e ∙ ap key p))
  IsKeyed-unique (z ∷ xs) x y k (inr hx) (inl q) e =
      cc (k.0, any_key_of_In (key z) x xs hx (e ∙ ap key q))
  IsKeyed-unique (z ∷ xs) x y k (inr hx) (inr hy) e = IsKeyed-unique xs x y k.1 hx hy e

  module _ (p : A → Bool) (f : A → A) (keeps : (x : A) → key (f x) ≡ key x) where
    pub any-update :
        (k : String) (xs : List A) → any (has_key k) (update p f xs) ≡ any (has_key k) xs
    any-update k [] = refl
    any-update k (x ∷ xs) = elim (Bool-cases (p x)) [
      | inl t ↦ rw t (rw (keeps x) (rw (any-update k xs)))
      | inr t ↦ rw t (rw (any-update k xs))
    ]

    -- An update that leaves the keys alone keeps the primary key.
    pub IsKeyed-update : (xs : List A) → IsKeyed xs → IsKeyed (update p f xs)
    IsKeyed-update [] k = tt
    IsKeyed-update (x ∷ xs) k = elim (Bool-cases (p x)) [
      | inl t ↦ rw t (rw (keeps x) (any-update (key x) xs ∙ k.0, IsKeyed-update xs k.1))
      | inr t ↦ rw t (any-update (key x) xs ∙ k.0, IsKeyed-update xs k.1)
    ]

  pub any-snoc :
      (k : String) (x : A) (xs : List A)
      → any (has_key k) xs ≡ false
      → str_eq (key x) k ≡ false
      → any (has_key k) (xs ++ x ∷ []) ≡ false
  any-snoc k x [] a n = ground arith
  any-snoc k x (y ∷ xs) a n = ground (arith, any-snoc k x xs)

  -- A new row whose key is free keeps the primary key.
  pub IsKeyed-snoc :
      (x : A) (xs : List A) → IsKeyed xs → any (has_key (key x)) xs ≡ false → IsKeyed (xs ++ x ∷ [])
  IsKeyed-snoc x [] k free = (refl, tt)
  IsKeyed-snoc x (y ∷ xs) k free = (
    any-snoc (key y) x xs k.0
        (ground (arith, str_eq_iff (key y) (key x), str_eq_iff (key x) (key y))),
    IsKeyed-snoc x xs k.1 (ground arith),
  )

  -- A fetch after an insert, or after an update of one row by its key.
  pub fetch-snoc :
      (k : String) (x : A) (xs : List A)
      → any (has_key (key x)) xs ≡ false
      → fetch k (xs ++ x ∷ []) ≡ (if str_eq (key x) k then some x else fetch k xs)
  fetch-snoc k x [] free = ground arith
  fetch-snoc k x (y ∷ xs) free = ground (
    arith,
    fetch-snoc k x xs,
    str_eq_iff (key y) k,
    str_eq_iff (key x) k,
    str_eq_iff (key y) (key x),
  )

  pub fetch-none : (k : String) (xs : List A) → fetch k xs ≡ none → any (has_key k) xs ≡ false
  fetch-none k [] e = refl
  fetch-none k (x ∷ xs) e = ground (arith, fetch-none k xs)

  pub fetch_missing : (k : String) (xs : List A) → any (has_key k) xs ≡ false → fetch k xs ≡ none
  fetch_missing k [] e = refl
  fetch_missing k (x ∷ xs) e = ground (arith, fetch_missing k xs)

  pub fetch-any :
      (k : String) (x : A) (xs : List A) → fetch k xs ≡ some x → any (has_key k) xs ≡ true
  fetch-any k x [] e = cc
  fetch-any k x (y ∷ xs) e = ground (arith, fetch-any k x xs)

  pub fetch-key : (k : String) (x : A) (xs : List A) → fetch k xs ≡ some x → key x ≡ k
  fetch-key k x [] e = cc
  fetch-key k x (y ∷ xs) e = elim (Bool-cases (str_eq (key y) k)) [
    | inl t ↦
        let same : some y ≡ some x = rw t at e in
        let p : y ≡ x = cc in sym (ap key p) ∙ (str_eq_iff (key y) k).0 t
    | inr f ↦ fetch-key k x xs (rw f at e)
  ]

  pub fetch-In : (k : String) (x : A) (xs : List A) → fetch k xs ≡ some x → In x xs
  fetch-In k x [] e = cc
  fetch-In k x (y ∷ xs) e = elim (Bool-cases (str_eq (key y) k)) [
    | inl t ↦ let same : some y ≡ some x = rw t at e in inl (cc)
    | inr f ↦ inr (fetch-In k x xs (rw f at e))
  ]

-- UPDATE … SET … WHERE key = k
pub fetch-update :
    {A : Type 0} (key : A → String) (k j : String) (f : A → A) (xs : List A)
    → ((x : A) → key (f x) ≡ key x)
    → fetch key j (update (has_key key k) f xs)
      ≡ (if str_eq k j then Option.map f (fetch key j xs) else fetch key j xs)
fetch-update key k j f [] keeps = ground arith
fetch-update key k j f (x ∷ xs) keeps = ground (
  arith,
  keeps x,
  fetch-update key k j f xs keeps,
  str_eq_iff (key x) k,
  str_eq_iff (key x) j,
  str_eq_iff k j,
)

-- An update by a key that no row has changes nothing.
pub update-missing :
    {A : Type 0} (key : A → String) (k : String) (f : A → A) (xs : List A)
    → any (has_key key k) xs ≡ false
    → update (has_key key k) f xs ≡ xs
update-missing key k f [] h = refl
update-missing key k f (x ∷ xs) h = ground (arith, update-missing key k f xs)

module _ {A : Type 0} (R : A → A → Type 0) where
  -- Every row of the first table stands at its place in the second, changed as `R` allows; the
  -- rows that follow are new.
  abbrev pub Extends : List A → List A → Type 0
  Extends [] ys = Unit
  Extends (x ∷ xs) [] = ⊥
  Extends (x ∷ xs) (y ∷ ys) = R x y × Extends xs ys

  pub Extends-trans :
      ((x y z : A) → R x y → R y z → R x z)
      → (xs ys zs : List A) → Extends xs ys
      → Extends ys zs
      → Extends xs zs
  Extends-trans t [] ys zs p q = tt
  Extends-trans t (x ∷ xs) [] zs p q = elim p [ ]
  Extends-trans t (x ∷ xs) (y ∷ ys) [] p q = elim q [ ]
  Extends-trans t (x ∷ xs) (y ∷ ys) (z ∷ zs) p q =
      (t x y z p.0 q.0, Extends-trans t xs ys zs p.1 q.1)

  module _ (r : (x : A) → R x x) where
    pub Extends-append : (xs ys : List A) → Extends xs (xs ++ ys)
    Extends-append [] ys = tt
    Extends-append (x ∷ xs) ys = (r x, Extends-append xs ys)

    pub Extends-refl : (xs : List A) → Extends xs xs
    Extends-refl [] = tt
    Extends-refl (x ∷ xs) = (r x, Extends-refl xs)

    pub Extends-update :
        (p : A → Bool) (f : A → A) (xs : List A)
        → ((x : A) → In x xs → p x ≡ true → R x (f x))
        → Extends xs (update p f xs)
    Extends-update p f [] h = tt
    Extends-update p f (x ∷ xs) h = elim (Bool-cases (p x)) [
      | inl t ↦ rw t (h x (inl refl) t, Extends-update p f xs (λ y m. h y (inr m)))
      | inr t ↦ rw t (r x, Extends-update p f xs (λ y m. h y (inr m)))
    ]

pub fetch_total :
    {A : Type 0} (key : A → String) (k : String) (xs : List A)
    → any (has_key key k) xs ≡ true
    → (x : A) × (fetch key k xs ≡ some x)
fetch_total key k [] h = cc
fetch_total key k (x ∷ xs) h = elim (Bool-cases (str_eq (key x) k)) [
  | inl t ↦ (x, rw t)
  | inr f ↦ let (y, e) = fetch_total key k xs (rw f at h) in (y, rw f e)
]
