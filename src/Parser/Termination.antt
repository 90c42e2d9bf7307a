-- ===== src/Parser/Termination.antt =====
-- The loop of `Parse` ends: how many rounds it takes on a buffer, whatever the buffer holds.
use ieee.Prelude.{
  ℕ, zero, suc, ◌*◌, ◌≤◌, ◌≡◌, ◌≢◌, refl, arith, ltb, ◌==◌, if◌then◌else◌, le→ltb, Bool-cases, inl,
  inr, length, take, drop, length-drop, List, [], ◌∷◌,
}
use ieee.Result.{Result, ok, err, runtime_error, out_of_fuel, ◌>>=◌}
use ieee.Bytes.{fetch}
use ieee.Bytes.Reads.{Consumes, Consumes-agree}
use ieee.Tlv
use ieee.Tlv.{Tlv}
use ieee.TlvTypes.{end_of_message}
use ieee.Cmdu.{Cmdu, add_tlv}
use ieee.Parser.{read_uint8, read_uint16, read_tlv, read_tlvs}

value-Consumes :
    (t n b c d : ℕ) (rest : List ℕ)
    → Consumes 3 (b ∷ c ∷ d ∷ rest) (
        if ltb (length rest) n
        then err (runtime_error "Buffer ended prematurely while reading TLV value.")
        else (Tlv.make t (take n rest) >>= λ tlv. ok (tlv, drop n rest)))
unfolding Tlv.make
value-Consumes t n b c d rest = elim (Bool-cases (ltb (length rest) n)) [
  | inl short ↦ rw short tt
  | inr enough ↦ elim (Bool-cases (ltb 0xFFFF (length (take n rest)))) [
    | inl long ↦ rw (enough, long) tt
    | inr fits ↦ rw (enough, fits) (omega (arith, length-drop n rest))
  ]
]

read_tlv-Consumes : (ptr : List ℕ) → Consumes 3 ptr (read_tlv ptr)
unfolding read_tlv read_uint8 read_uint16 fetch
read_tlv-Consumes [] = tt
read_tlv-Consumes (b ∷ []) = tt
read_tlv-Consumes (b ∷ c ∷ []) = tt
read_tlv-Consumes (b ∷ c ∷ d ∷ rest) =
    rw (le→ltb (suc (suc (suc (length rest)))) 3 (omega arith)) (value-Consumes b _ b c d rest)

-- The end of a round, for two amounts of fuel.
round-agrees :
    (t : Tlv) (c : Cmdu) (r r' : Result Cmdu)
    → (r ≡ r') × (r ≢ err out_of_fuel)
    → let f = λ (x : Result Cmdu). if t.type == end_of_message then ok c else x in
      (f r ≡ f r') × (f r ≢ err out_of_fuel)
round-agrees t c r r' h = elim (Bool-cases (t.type == end_of_message)) [
  | inl e ↦ rw e (refl, λ x. cc)
  | inr e ↦ rw e h
]

-- On any buffer the loop of `Parse` ends within one round for every three bytes that are left, a
-- last round for less than three included: with that fuel and more its outcome is one and the
-- same, and is not that the fuel ran out.
pub read_tlvs_rounds :
    (f g : ℕ) (ptr : List ℕ) (c : Cmdu)
    → length ptr ≤ 3 * f
    → length ptr ≤ 3 * g
    → (read_tlvs f ptr c ≡ read_tlvs g ptr c) × (read_tlvs f ptr c ≢ err out_of_fuel)
unfolding read_tlvs
read_tlvs_rounds f g [] c hf hg = (refl, λ x. cc)
read_tlvs_rounds zero g (b ∷ bs) c hf hg = absurd (omega arith)
read_tlvs_rounds (suc f) zero (b ∷ bs) c hf hg = absurd (omega arith)
read_tlvs_rounds (suc f) (suc g) (b ∷ bs) c hf hg =
    Consumes-agree 3 (b ∷ bs) (read_tlv (b ∷ bs)) _ _ (read_tlv-Consumes (b ∷ bs)) λ t rest h.
      round-agrees t (add_tlv t c) _ _
        (read_tlvs_rounds f g rest (add_tlv t c) (omega arith) (omega arith))
