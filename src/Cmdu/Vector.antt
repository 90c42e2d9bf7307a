-- ===== src/Cmdu/Vector.antt =====
-- The ends of a std::vector: `back`, `pop_back` and `push_back` on a list.
use ieee.Prelude.{◌≡◌, refl, ap, List, [], ◌∷◌, ◌++◌, Option, none, some}

module _ {ℓ} {A : Type ℓ} where
  abbrev pub back? : List A → Option A
  back? [] = none
  back? (x ∷ []) = some x
  back? (x ∷ y ∷ xs) = back? (y ∷ xs)

  abbrev pub pop_back : List A → List A
  pop_back [] = []
  pop_back (x ∷ []) = []
  pop_back (x ∷ y ∷ xs) = x ∷ pop_back (y ∷ xs)

  abbrev pub push_back : List A → A → List A
  push_back xs x = xs ++ (x ∷ [])

module _ {ℓ} {A : Type ℓ} where
  pub back?-push_back : (xs : List A) (x : A) → back? (push_back xs x) ≡ some x
  back?-push_back [] x = refl
  back?-push_back (y ∷ []) x = refl
  back?-push_back (y ∷ z ∷ xs) x = back?-push_back (z ∷ xs) x

  pub pop_back-push_back : (xs : List A) (x : A) → pop_back (push_back xs x) ≡ xs
  pop_back-push_back [] x = refl
  pop_back-push_back (y ∷ []) x = refl
  pop_back-push_back (y ∷ z ∷ xs) x = ap (◌∷◌ y) (pop_back-push_back (z ∷ xs) x)

  -- A vector seen from its end.
  pub data FromBack : List A → Type ℓ where
    empty : FromBack []
    snoc : (xs : List A) (x : A) → FromBack (push_back xs x)

  FromBack-cons : (x : A) {xs : List A} → FromBack xs → FromBack (x ∷ xs)
  FromBack-cons x empty = snoc [] x
  FromBack-cons x (snoc xs y) = snoc (x ∷ xs) y

  pub from_back : (xs : List A) → FromBack xs
  from_back [] = empty
  from_back (x ∷ xs) = FromBack-cons x (from_back xs)
