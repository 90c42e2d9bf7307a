-- ===== src/Network/Merge.antt =====
-- Two sequences of ids that arrive as one.
use ieee.Prelude.{ℕ, ◌+◌, ◌≡◌, arith, length, List, [], ◌∷◌, ◌++◌}

-- The third list has the elements of the first and of the second, each in their order.
pub data Merge : List ℕ → List ℕ → List ℕ → Type 0 where
  done : Merge [] [] []
  left : (x : ℕ) {xs ys zs : List ℕ} → Merge xs ys zs → Merge (x ∷ xs) ys (x ∷ zs)
  right : (y : ℕ) {xs ys zs : List ℕ} → Merge xs ys zs → Merge xs (y ∷ ys) (y ∷ zs)

-- One element more at the end, of the first or of the second.
pub Merge-snoc_left :
    (z : ℕ) {xs ys zs : List ℕ} → Merge xs ys zs → Merge (xs ++ (z ∷ [])) ys (zs ++ (z ∷ []))
Merge-snoc_left z done = left z done
Merge-snoc_left z (left x m) = left x (Merge-snoc_left z m)
Merge-snoc_left z (right y m) = right y (Merge-snoc_left z m)

pub Merge-snoc_right :
    (z : ℕ) {xs ys zs : List ℕ} → Merge xs ys zs → Merge xs (ys ++ (z ∷ [])) (zs ++ (z ∷ []))
Merge-snoc_right z done = right z done
Merge-snoc_right z (left x m) = left x (Merge-snoc_right z m)
Merge-snoc_right z (right y m) = right y (Merge-snoc_right z m)

pub length-Merge : {xs ys zs : List ℕ} → Merge xs ys zs → length zs ≡ length xs + length ys
length-Merge done = omega arith
length-Merge (left x m) = omega (arith, length-Merge m)
length-Merge (right y m) = omega (arith, length-Merge m)
