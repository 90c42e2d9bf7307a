-- ===== src/Wsc/Entries.antt =====
-- std::map from numbers: a list of entries in the order of their keys.
use ieee.Prelude.{
  ℕ, ◌<◌, ◌≡◌, ◌≢◌, refl, arith, ◌==◌, ltb, if◌then◌else◌, All, List, [], ◌∷◌, ◌++◌, Option, none,
  some,
}

abbrev pub Map {ℓ} : Type ℓ → Type ℓ
Map V = List (ℕ × V)

module _ {ℓ} {V : Type ℓ} where
  -- `m[k] = v`.
  unfoldable pub insert_or_assign : ℕ → V → Map V → Map V
  insert_or_assign k v [] = (k, v) ∷ []
  insert_or_assign k v ((j, w) ∷ m) =
      if ltb k j
      then (k, v) ∷ (j, w) ∷ m
      else if k == j
      then (k, v) ∷ m
      else (j, w) ∷ insert_or_assign k v m

  -- `find`, with `none` for `end()`.
  unfoldable pub find : ℕ → Map V → Option V
  find k [] = none
  find k ((j, w) ∷ m) = if k == j then some w else find k m

  -- Every key is above `k`.
  abbrev pub Above : ℕ → Map V → Type 0
  Above k [] = Unit
  Above k ((j, w) ∷ m) = (k < j) × Above k m

  -- The keys stand in increasing order, each once.
  abbrev pub IsSorted : Map V → Type 0
  IsSorted [] = Unit
  IsSorted ((k, v) ∷ m) = Above k m × IsSorted m

module _ {ℓ} {V : Type ℓ} where
  pub find-insert_or_assign :
      (k j : ℕ) (v : V) (m : Map V)
      → find j (insert_or_assign k v m) ≡ (if k == j then some v else find j m)
  unfolding find insert_or_assign
  find-insert_or_assign k j v [] = ground arith
  find-insert_or_assign k j v ((i, w) ∷ m) = ground (arith, find-insert_or_assign k j v m)

  Above-insert_or_assign :
      (i k : ℕ) (v : V) (m : Map V) → i < k → Above i m → Above i (insert_or_assign k v m)
  unfolding insert_or_assign
  Above-insert_or_assign i k v [] h a = (h, tt)
  Above-insert_or_assign i k v ((j, w) ∷ m) h a = ground (arith, Above-insert_or_assign i k v m h)

  Above-trans : (i k : ℕ) (m : Map V) → i < k → Above k m → Above i m
  Above-trans i k [] h a = tt
  Above-trans i k ((j, w) ∷ m) h a = (omega arith, Above-trans i k m h a.1)

  pub insert_or_assign-IsSorted :
      (k : ℕ) (v : V) (m : Map V) → IsSorted m → IsSorted (insert_or_assign k v m)
  unfolding insert_or_assign
  insert_or_assign-IsSorted k v [] s = (tt, tt)
  insert_or_assign-IsSorted k v ((j, w) ∷ m) s =
      ground
        (arith, Above-trans k j m, Above-insert_or_assign j k v m, insert_or_assign-IsSorted k v m)

  -- A later assignment to the same key leaves no trace of the earlier one.
  pub insert_or_assign_twice :
      (k : ℕ) (v w : V) (m : Map V)
      → insert_or_assign k w (insert_or_assign k v m) ≡ insert_or_assign k w m
  unfolding insert_or_assign
  insert_or_assign_twice k v w [] = ground arith
  insert_or_assign_twice k v w ((j, u) ∷ m) = ground (arith, insert_or_assign_twice k v w m)

  -- Assignments to different keys commute.
  pub insert_or_assign_comm :
      (k j : ℕ) (v w : V) (m : Map V)
      → k ≢ j
      → insert_or_assign k v (insert_or_assign j w m)
        ≡ insert_or_assign j w (insert_or_assign k v m)
  unfolding insert_or_assign
  insert_or_assign_comm k j v w [] n = ground arith
  insert_or_assign_comm k j v w ((i, u) ∷ m) n = ground (arith, insert_or_assign_comm k j v w m)

  -- An entry above all keys goes to the end.
  pub insert_or_assign_last :
      (k : ℕ) (v : V) (m : Map V)
      → All (λ e. e.0 < k) m
      → insert_or_assign k v m ≡ m ++ ((k, v) ∷ [])
  unfolding insert_or_assign
  insert_or_assign_last k v [] a = refl
  insert_or_assign_last k v ((j, u) ∷ m) a = ground (arith, insert_or_assign_last k v m a.1)
