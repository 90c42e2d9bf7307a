-- ===== src/Wsc/Termination.antt =====
-- The loop of `ParseAttributes` ends: how many rounds it takes, whatever the buffer holds.
use ieee.Prelude.{
  ℕ, zero, suc, ◌*◌, ◌≤◌, ◌≡◌, ◌≢◌, refl, arith, ltb, if◌then◌else◌, le→ltb, Bool-cases, inl, inr,
  length, take, drop, length-drop, List, [], ◌∷◌,
}
use ieee.Result.{ok, err, runtime_error, out_of_fuel}
use ieee.Bytes.{fetch}
use ieee.Bytes.Reads.{Consumes, Consumes-agree}
use ieee.Wsc.{read_uint16_be, read_attribute, read_attributes}
use ieee.Wsc.Entries.{Map, insert_or_assign}

value-Consumes :
    (t n a b c d : ℕ) (rest : List ℕ)
    → Consumes {A = ℕ × List ℕ} 4 (a ∷ b ∷ c ∷ d ∷ rest) (
        if ltb (length rest) n
        then err (runtime_error "WSC Attribute value truncated.")
        else ok ((t, take n rest), drop n rest))
value-Consumes t n a b c d rest = elim (Bool-cases (ltb (length rest) n)) [
  | inl short ↦ rw short tt
  | inr enough ↦ rw enough (omega (arith, length-drop n rest))
]

read_attribute-Consumes : (ptr : List ℕ) → Consumes 4 ptr (read_attribute ptr)
unfolding read_attribute read_uint16_be fetch
read_attribute-Consumes [] = tt
read_attribute-Consumes (a ∷ []) = tt
read_attribute-Consumes (a ∷ b ∷ []) = tt
read_attribute-Consumes (a ∷ b ∷ c ∷ []) = tt
read_attribute-Consumes (a ∷ b ∷ c ∷ d ∷ rest) =
    rw (le→ltb (suc (suc (suc (suc (length rest))))) 4 (omega arith))
      (value-Consumes _ _ a b c d rest)

-- On any buffer the loop of `ParseAttributes` ends within one round for every four bytes that are
-- left, a last round for less than four included: with that fuel and more its outcome is one and
-- the same, and is not that the fuel ran out.
pub read_attributes_rounds :
    (f g : ℕ) (ptr : List ℕ) (m : Map (List ℕ))
    → length ptr ≤ 4 * f
    → length ptr ≤ 4 * g
    → (read_attributes f ptr m ≡ read_attributes g ptr m)
      × (read_attributes f ptr m ≢ err out_of_fuel)
unfolding read_attributes
read_attributes_rounds f g [] m hf hg = (refl, λ x. cc)
read_attributes_rounds zero g (b ∷ bs) m hf hg = absurd (omega arith)
read_attributes_rounds (suc f) zero (b ∷ bs) m hf hg = absurd (omega arith)
read_attributes_rounds (suc f) (suc g) (b ∷ bs) m hf hg =
    Consumes-agree 4 (b ∷ bs) (read_attribute (b ∷ bs)) _ _ (read_attribute-Consumes (b ∷ bs))
      λ a rest h.
        read_attributes_rounds f g rest (insert_or_assign a.0 a.1 m) (omega arith) (omega arith)
