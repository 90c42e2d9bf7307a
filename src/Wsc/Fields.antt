-- ===== src/Wsc/Fields.antt =====
-- Reading one attribute of a WSC message.
use ieee.Prelude.{
  ℕ, suc, ◌+◌, ◌*◌, ◌/◌, ◌%◌, ◌<◌, ◌≡◌, ◌∙◌, arith, ltb, le→ltb, if◌then◌else◌, Bool-cases, inl,
  inr, length, take, drop, length-append, length-take, length-take-le, take-append, drop-append,
  take-append-drop, All, All-take, All-drop, IsByte, List, [], ◌∷◌, ◌++◌, false,
}
use ieee.Result.{ok, err, runtime_error, Safely}
use ieee.Parser.{read_uint16}
use ieee.Parser.Tokens.{read_uint16_lem}
use ieee.Wsc.{read_uint16_be, read_attribute}
use ieee.Wsc.Packing.{Attribute, IsAttribute, wire_attribute}

read_uint16_be_lem :
    (high low : ℕ) (rest : List ℕ)
    → IsByte high
    → IsByte low
    → read_uint16_be (high ∷ low ∷ rest) ≡ ok (high * 256 + low, rest)
unfolding read_uint16_be read_uint16
read_uint16_be_lem high low rest h l = read_uint16_lem high low rest h l

-- One attribute behind its four header bytes.
pub read_attribute_lem :
    (t₁ t₀ high low : ℕ) (rest : List ℕ)
    → All IsByte (t₁ ∷ t₀ ∷ high ∷ low ∷ [])
    → let n = high * 256 + low in
      read_attribute (t₁ ∷ t₀ ∷ high ∷ low ∷ rest) ≡ (
        if ltb (length rest) n
        then err (runtime_error "WSC Attribute value truncated.")
        else ok ((t₁ * 256 + t₀, take n rest), drop n rest))
unfolding read_attribute
read_attribute_lem t₁ t₀ high low rest h =
    rw (le→ltb (suc (suc (suc (suc (length rest))))) 4 (omega arith)) (
      rw (
        read_uint16_be_lem t₁ t₀ (high ∷ low ∷ rest) h.0 h.1.0,
        read_uint16_be_lem high low rest h.1.1.0 h.1.1.1.0,
      ))

pub read_attribute-wire_attribute :
    (a : Attribute) (rest : List ℕ)
    → IsAttribute a
    → read_attribute (wire_attribute a ++ rest) ≡ ok (a, rest)
read_attribute-wire_attribute (k, v) rest h =
    read_attribute_lem (k / 256) (k % 256) (n / 256) (n % 256) (v ++ rest)
      (upper k h.type_u16, (omega arith, (upper n (ground arith), (omega arith, tt))))
    ∙ rw (
      whole k,
      whole n,
      le→ltb (length (v ++ rest)) n (omega (arith, length-append v rest)),
      take-append v rest,
      drop-append v rest,
    )
  where
    n : ℕ
    n = length v

    upper : (m : ℕ) → m < 65536 → m / 256 < 256
    upper m q = omega arith

    whole : (m : ℕ) → m / 256 * 256 + m % 256 ≡ m
    whole m = omega arith

pub taken :
    (t₁ t₀ high low : ℕ) (rest : List ℕ)
    → All IsByte (t₁ ∷ t₀ ∷ high ∷ low ∷ rest)
    → let n = high * 256 + low in
      ltb (length rest) n ≡ false
      → (t₁ ∷ t₀ ∷ high ∷ low ∷ rest ≡ wire_attribute (t₁ * 256 + t₀, take n rest) ++ drop n rest)
        × IsAttribute (t₁ * 256 + t₀, take n rest)
        × All IsByte (drop n rest)
taken t₁ t₀ high low rest h enough = (
  rw (
    length-take n rest (ground arith),
    upper t₁ t₀ h.1.0,
    lower t₁ t₀ h.1.0,
    upper high low h.1.1.1.0,
    lower high low h.1.1.1.0,
    take-append-drop n rest,
  ),
  record {
    type_u16 = omega arith;
    value_bytes = All-take IsByte n rest h.1.1.1.1;
    fits = omega (arith, length-take-le n rest, h.1.1.0, h.1.1.1.0);
  },
  All-drop IsByte n rest h.1.1.1.1,
)
  where
    n : ℕ
    n = high * 256 + low

    upper : (a b : ℕ) → b < 256 → (a * 256 + b) / 256 ≡ a
    upper a b q = omega arith

    lower : (a b : ℕ) → b < 256 → (a * 256 + b) % 256 ≡ b
    lower a b q = omega arith

pub read_attribute-Safely :
    (ptr : List ℕ)
    → All IsByte ptr
    → Safely
        (λ (a, rest). (ptr ≡ wire_attribute a ++ rest) × IsAttribute a × All IsByte rest)
        (read_attribute ptr)
read_attribute-Safely (t₁ ∷ t₀ ∷ high ∷ low ∷ rest) h =
    rw (read_attribute_lem t₁ t₀ high low rest (All-take IsByte 4 (t₁ ∷ t₀ ∷ high ∷ low ∷ rest) h))
      (elim (Bool-cases (ltb (length rest) (high * 256 + low))) [
        | inl short ↦ rw short tt
        | inr enough ↦ rw enough (taken t₁ t₀ high low rest h enough)
      ])
read_attribute-Safely _ h = unfold read_attribute in tt
