-- ===== src/Inputs/Windows.antt =====
-- The newest messages of a list, and what `push` and the loop of `extend` keep of them.
use feather_os.Prelude.{
  ℕ, zero, suc, ◌-◌, ◌≤◌, ◌<◌, min, ◌≡◌, refl, sym, ◌∙◌, ap, String, List, [], ◌∷◌, ◌++◌, arith,
  leb, Bool-cases, inl, inr, if◌then◌else◌, strip, is_empty, length, tail, drop,
}
use mathlib.Core.List.{append_assoc, append-nil}
use feather_os.Inputs.{push, push_all}

-- The last `n` elements.
abbrev pub newest : {A : Type 0} → ℕ → List A → List A
newest n xs = drop (length xs - n) xs

-- What is left of the typed texts: stripped, without the blank ones.
abbrev pub cleaned : List String → List String
cleaned [] = []
cleaned (t ∷ texts) =
    let rest = cleaned texts in if is_empty (strip t) then rest else strip t ∷ rest

module _ {A : Type 0} where
  length-drop : (n : ℕ) (xs : List A) → length (drop n xs) ≡ length xs - n
  length-drop zero xs = omega arith
  length-drop (suc n) [] = omega arith
  length-drop (suc n) (x ∷ xs) = length-drop n xs ∙ omega arith

  length-snoc : (xs : List A) (x : A) → length (xs ++ x ∷ []) ≡ suc (length xs)
  length-snoc [] x = refl
  length-snoc (y ∷ xs) x = ap suc (length-snoc xs x)

  tail-drop : (n : ℕ) (xs : List A) → tail (drop n xs) ≡ drop (suc n) xs
  tail-drop zero [] = refl
  tail-drop zero (x ∷ xs) = refl
  tail-drop (suc n) [] = refl
  tail-drop (suc n) (x ∷ xs) = tail-drop n xs

  drop-append : (n : ℕ) (xs ys : List A) → n ≤ length xs → drop n (xs ++ ys) ≡ drop n xs ++ ys
  drop-append zero xs ys h = refl
  drop-append (suc n) [] ys h = let no : ⊥ = omega arith in elim no [ ]
  drop-append (suc n) (x ∷ xs) ys h = drop-append n xs ys (omega arith)

  -- There are as many as there can be.
  pub length-newest : (n : ℕ) (xs : List A) → length (newest n xs) ≡ min n (length xs)
  length-newest n xs = length-drop (length xs - n) xs ∙ ground arith

pub newest-nil : {A : Type 0} (n : ℕ) → newest {A = A} n [] ≡ []
newest-nil {A} n = drop-nil (0 - n)
  where
    drop-nil : (k : ℕ) → drop {A = A} k [] ≡ []
    drop-nil zero = refl
    drop-nil (suc k) = refl

-- A push onto the newest messages of a log gives the newest of the longer log.
pub push-newest :
    (n : ℕ) (text : String) (xs : List String)
    → 0 < n
    → push n text (newest n xs) ≡ newest n (xs ++ text ∷ [])
unfolding push
push-newest n text xs pos = elim (Bool-cases (leb n (length (newest n xs)))) [
  | inl full ↦
      let long : n ≤ length xs = ground (arith, length-newest n xs) in
      let same : suc (length xs - n) ≡ suc (length xs) - n = omega arith in
      rw full (
        rw (length-snoc xs text) (
          ap (λ l. l ++ text ∷ []) (tail-drop (length xs - n) xs)
          ∙ sym (drop-append (suc (length xs - n)) xs (text ∷ []) (omega arith))
          ∙ ap (λ k. drop k (xs ++ text ∷ [])) same))
  | inr free ↦
      let short : length xs < n = ground (arith, length-newest n xs) in
      let none_left : length xs - n ≡ 0 = omega arith in
      let none_left' : suc (length xs) - n ≡ 0 = omega arith in
      rw free (rw (length-snoc xs text) (rw none_left (rw none_left' refl)))
]

pub push_all-newest :
    (n : ℕ) (texts xs : List String)
    → 0 < n
    → push_all n texts (newest n xs) ≡ (length (cleaned texts), newest n (xs ++ cleaned texts))
push_all-newest n [] xs pos = ap (λ l. (0, newest n l)) (sym (append-nil xs))
push_all-newest n (t ∷ texts) xs pos = elim (Bool-cases (is_empty (strip t))) [
  | inl blank ↦ let ih = push_all-newest n texts xs pos in rw blank (ap (λ r. (r.0, r.1)) ih)
  | inr text ↦
      let ih = push_all-newest n texts (xs ++ strip t ∷ []) pos in
      rw text (
        rw (push-newest n (strip t) xs pos) (
          ap (λ r. (suc r.0, r.1)) ih
          ∙ ap (λ l. (suc (length (cleaned texts)), newest n l))
              (append_assoc xs (strip t ∷ []) (cleaned texts))))
]
