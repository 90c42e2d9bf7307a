-- ===== src/Bytes/Reads.antt =====
-- Loops that read a buffer: calls that move the pointer on, and how many rounds that allows.
use ieee.Prelude.{ℕ, ◌+◌, ◌≤◌, ◌≡◌, ◌≢◌, refl, arith, suc, length, List, [], ◌∷◌}
use ieee.Result.{
  Result, ok, err, length_error, runtime_error, invalid_argument, out_of_bounds, out_of_fuel, ◌>>=◌,
}

-- The call leaves at least `k` bytes less, if it returns, and has no loop that runs out of rounds.
abbrev pub Consumes {ℓ} : {A : Type ℓ} → ℕ → List ℕ → Result (A × List ℕ) → Type 0
Consumes k ptr (ok (a, rest)) = k + length rest ≤ length ptr
Consumes k ptr (err out_of_fuel) = ⊥
Consumes k ptr (err _) = Unit {0}

-- Two ways to go on after such a call that agree on every shorter rest, and end there.
pub Consumes-agree {ℓ κ} :
    {A : Type ℓ} {B : Type κ} (k : ℕ) (ptr : List ℕ) (r : Result (A × List ℕ))
    (f g : A × List ℕ → Result B)
    → Consumes k ptr r
    → ((a : A) (rest : List ℕ)
        → k + length rest ≤ length ptr
        → (f (a, rest) ≡ g (a, rest)) × (f (a, rest) ≢ err out_of_fuel))
    → ((r >>= f) ≡ (r >>= g)) × ((r >>= f) ≢ err out_of_fuel)
Consumes-agree k ptr (ok (a, rest)) f g h agree = agree a rest h
Consumes-agree k ptr (err (length_error s)) f g h agree = (refl, λ x. cc)
Consumes-agree k ptr (err (runtime_error s)) f g h agree = (refl, λ x. cc)
Consumes-agree k ptr (err (invalid_argument s)) f g h agree = (refl, λ x. cc)
Consumes-agree k ptr (err out_of_bounds) f g h agree = (refl, λ x. cc)
Consumes-agree k ptr (err out_of_fuel) f g h agree = absurd h

-- One round more for each element that was read before.
module _ {ℓ} {A : Type ℓ} where
  abbrev pub more_rounds : List A → ℕ → ℕ
  more_rounds [] fuel = fuel
  more_rounds (x ∷ xs) fuel = suc (more_rounds xs fuel)

  pub le-more_rounds : (xs : List A) (fuel : ℕ) → fuel ≤ more_rounds xs fuel
  le-more_rounds [] fuel = omega arith
  le-more_rounds (x ∷ xs) fuel = omega (arith, le-more_rounds xs fuel)
