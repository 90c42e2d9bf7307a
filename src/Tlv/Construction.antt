-- ===== src/Tlv/Construction.antt =====
-- What the constructors accept, and that the accessors give back what was put in.
use ieee.Prelude.{
  refl, ℕ, ◌+◌, ◌≤◌, ◌≡◌, arith, ◌↔◌, ◌⊎◌, ◌<◌, inl, inr, ltb, Bool-cases, length, All, IsByte,
  List,
}
use ieee.Result.{ok, err, length_error}
use ieee.Tlv.{Tlv, IsValid, make, get_type, get_length, get_value, get_packet_size}

-- A constructor returns exactly when the value has at most 65535 bytes, and the TLV then has the
-- given type and value.
pub make-eq-ok_iff :
    (type : ℕ) (value : List ℕ) (t : Tlv)
    → (make type value ≡ ok t)
      ↔ ((length value ≤ 65535) × (get_type t ≡ type) × (get_value t ≡ value))
unfolding make get_type get_value
make-eq-ok_iff type value t = (λ e. ground arith, λ h. ground arith)

-- The 16-bit length of a constructed TLV is the length of its value, not that length modulo
-- 65536, and its packet size is three bytes more.
pub get_length-make :
    (type : ℕ) (value : List ℕ) (t : Tlv)
    → make type value ≡ ok t
    → (get_length t ≡ length value) × (get_packet_size t ≡ get_length t + 3)
unfolding make get_length get_packet_size
get_length-make type value t e = (ground arith, ground arith)

pub make-IsValid :
    (type : ℕ) (value : List ℕ) (t : Tlv)
    → IsByte type
    → All IsByte value
    → make type value ≡ ok t
    → IsValid t
unfolding make
make-IsValid type value t b bs e = ground arith

-- A constructor with at most 65535 bytes returns a TLV whose accessors give its type, its value,
-- the length of the value, not reduced modulo 65536, and that length with the three header bytes.
-- With more bytes it throws a length_error.
pub make-cases :
    (type : ℕ) (value : List ℕ)
    → ((length value ≤ 65535)
        × (t : Tlv) × (make type value ≡ ok t)
        × (get_type t ≡ type)
        × (get_value t ≡ value)
        × (get_length t ≡ length value)
        × (get_packet_size t ≡ length value + 3))
      ⊎ ((65535 < length value)
          × (make type value
              ≡ err (length_error "TLV value length exceeds maximum 16-bit limit (65535 bytes).")))
unfolding make get_type get_value get_length get_packet_size
make-cases type value = elim (Bool-cases (ltb 65535 (length value))) [
  | inl long ↦ inr (ground arith, rw long refl)
  | inr short ↦
      let below : length value ≤ 65535 = ground arith in
      inl (
        below,
        record { type = type; value = value },
        rw short refl,
        refl,
        refl,
        omega arith,
        omega arith,
      )
]
