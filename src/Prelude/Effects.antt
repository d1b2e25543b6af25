-- ===== src/Prelude/Effects.antt =====
-- Methods that write to a store and may raise. What was committed before a raise stays, so the
-- store comes back beside the error too.
use mathlib.Core.Bool.{Bool, true, false}
use mathlib.Core.Option.{Option, none, some}
use Prim.Native.String.{String}
use feather_os.Prelude.Tests.{if◌then◌else◌, Bool-cases}
use mathlib.Core.Logic.{inl, inr}
use mathlib.Core.Path.{◌≡◌, ap}
use feather_os.Prelude.Results.{Error, value_error, integrity_error, Result, ok, err, Result-cases}

abbrev pub Exec : Type 0 → Type 0 → Type 0
Exec S A = S → Result A × S

module _ {S A : Type 0} where
  abbrev pub pure : A → Exec S A
  pure a s = (ok a, s)

  abbrev pub raise : Error → Exec S A
  raise e s = (err e, s)

  -- A row that has to be there.
  abbrev pub require : Option A → String → Exec S A
  require none message = raise (value_error message)
  require (some a) message = pure a

  abbrev pub lift : Result A → Exec S A
  lift r s = (r, s)

  -- `try: m` with the error as a value; what `m` wrote stays.
  abbrev pub attempt : Exec S A → Exec S (Result A)
  attempt m s = let (r, s') = m s in (ok r, s')

  -- `try: m finally: f`
  abbrev pub finally : Exec S A → (S → S) → Exec S A
  finally m f s = let (r, s') = m s in (r, f s')

module _ {S A B : Type 0} where
  abbrev pub continue : Result A → (A → Exec S B) → Exec S B
  continue (ok a) f = f a
  continue (err e) f = raise e

  infixl 10 ◌>>=◌ ◌>>◌
  abbrev pub ◌>>=◌ : Exec S A → (A → Exec S B) → Exec S B
  m >>= f = λ s. let (r, s') = m s in continue r f s'

  abbrev pub ◌>>◌ : Exec S A → Exec S B → Exec S B
  m >> n = m >>= λ _. n

module _ {S A B : Type 0} where
  -- What returned is made of two parts that returned.
  pub bind-ok :
      (m : Exec S A) (f : A → Exec S B) (s s' : S) (b : B)
      → (m >>= f) s ≡ (ok b, s')
      → (a : A) × ((m s).0 ≡ ok a) × (f a (m s).1 ≡ (ok b, s'))
  bind-ok m f s s' b h = elim (Result-cases (m s).0) [
    | inl (a, e) ↦ (a, e, rw e at h)
    | inr (x, e) ↦ cc (ap (λ (q : Result B × S). q.0) (rw e at h))
  ]

  pub bind-returns :
      (m : Exec S A) (f : A → Exec S B) (s : S) (b : B)
      → ((m >>= f) s).0 ≡ ok b
      → (a : A) × ((m s).0 ≡ ok a) × ((m >>= f) s ≡ f a (m s).1)
  bind-returns m f s b h = elim (Result-cases (m s).0) [
    | inl (a, e) ↦ (a, e, rw e)
    | inr (x, e) ↦ cc (rw e at h)
  ]

pub bind_pure-state :
    {S A B : Type 0} (m : Exec S A) (b : B) (s : S) → ((m >>= λ _. pure b) s).1 ≡ (m s).1
bind_pure-state m b s = elim (Result-cases (m s).0) [ inl (a, e) ↦ rw e | inr (x, e) ↦ rw e ]

-- SQLite refuses a statement that would break a key.
abbrev pub refuse_if : {S : Type 0} → (S → Bool) → Exec S Unit
refuse_if broken s = if broken s then raise integrity_error s else pure tt s

abbrev pub modify : {S : Type 0} → (S → S) → Exec S Unit
modify f s = (ok tt, f s)

-- `if failed: raise ValueError(message)`
abbrev pub raise_if : {S : Type 0} → Bool → String → Exec S Unit
raise_if true message = raise (value_error message)
raise_if false message = pure tt

-- `if argument is not None: await action(argument)`, the result being dropped
abbrev pub if_given : {S A B : Type 0} → Option A → (A → Exec S B) → Exec S Unit
if_given none action = pure tt
if_given (some a) action = action a >> pure tt

pub record IsPreorder {S : Type 0} (R : S → S → Type 0) : Type 0 where
  pub refl : (s : S) → R s s
  pub trans : (a b c : S) → R a b → R b c → R a c

-- The store after `m` is related to the store before it on every path, errors included.
pub record Keeps {S A : Type 0} (R : S → S → Type 0) (m : Exec S A) : Type 0 where
  pub at : (s : S) → R s (m s).1

module _ {S : Type 0} {R : S → S → Type 0} (o : IsPreorder R) where
  pub Keeps-pure : {A : Type 0} (a : A) → Keeps R (pure a)
  Keeps-pure a = record { at = o.refl }

  pub Keeps-raise_if : (b : Bool) (message : String) → Keeps R (raise_if b message)
  Keeps-raise_if true message = record { at = o.refl }
  Keeps-raise_if false message = record { at = o.refl }

  pub Keeps-require : {A : Type 0} (x : Option A) (message : String) → Keeps R (require x message)
  Keeps-require none message = record { at = o.refl }
  Keeps-require (some a) message = record { at = o.refl }

  pub Keeps-refuse_if : (broken : S → Bool) → Keeps R (refuse_if broken)
  Keeps-refuse_if broken = record {
    at = λ s. elim (Bool-cases (broken s)) [ inl t ↦ rw t (o.refl s) | inr f ↦ rw f (o.refl s) ];
  }

  pub Keeps-lift : {A : Type 0} (r : Result A) → Keeps R (lift r)
  Keeps-lift r = record { at = o.refl }

  Keeps-continue :
      {A B : Type 0} (x : Result A) (f : A → Exec S B)
      → ((a : A) → Keeps R (f a))
      → (s : S) → R s (continue x f s).1
  Keeps-continue (ok a) f k s = (k a).at s
  Keeps-continue (err e) f k s = o.refl s

  pub Keeps-bind :
      {A B : Type 0} (m : Exec S A) (f : A → Exec S B)
      → Keeps R m
      → ((a : A) → Keeps R (f a))
      → Keeps R (m >>= f)
  Keeps-bind m f km kf = record {
    at = λ s. o.trans s (m s).1 _ (km.at s) (Keeps-continue (m s).0 f kf (m s).1);
  }

  pub Keeps-if_given :
      {A B : Type 0} (x : Option A) (f : A → Exec S B)
      → ((a : A) → Keeps R (f a))
      → Keeps R (if_given x f)
  Keeps-if_given none f k = record { at = o.refl }
  Keeps-if_given (some a) f k = Keeps-bind (f a) (λ _. pure tt) (k a) (λ _. Keeps-pure tt)

-- A write is kept if it is allowed.
pub Keeps-modify :
    {S : Type 0} {R : S → S → Type 0} (f : S → S) → ((s : S) → R s (f s)) → Keeps R (modify f)
Keeps-modify f k = record { at = k }
