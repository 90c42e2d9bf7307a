-- ===== src/Parser/Tokens.antt =====
-- Reading the fields and the TLVs of a message.
use ieee.Prelude.{
  ℕ, suc, ◌+◌, ◌*◌, ◌/◌, ◌%◌, ◌≤◌, ◌≡◌, ap, ◌∙◌, arith, u16, bit_or, ltb, if◌then◌else◌, le→ltb,
  Bool-cases, inl, inr, length, take, drop, take-append, drop-append, take-append-drop, length-take,
  length-take-le, length-append, All, All-take, All-drop, IsByte, IsU16, List, [], ◌∷◌, ◌++◌, false,
}
use ieee.Prelude.Bits.{bit_or-bytes}
use ieee.Result.{ok, err, runtime_error, Safely}
use ieee.Bytes.{fetch}
use ieee.Tlv
use ieee.Tlv.{Tlv, tlv_header_size}
use ieee.Serializer.Wire.{big_endian, wire_tlv}
use ieee.Parser.{read_uint8, read_uint16, read_tlv}

pub read_uint16_lem :
    (high low : ℕ) (rest : List ℕ)
    → IsByte high
    → IsByte low
    → read_uint16 (high ∷ low ∷ rest) ≡ ok (high * 256 + low, rest)
unfolding read_uint16 fetch
read_uint16_lem high low rest h l = ap (λ (k : ℕ). ok (k, rest)) joined
  where
    shifted : u16 (high * 256) ≡ high * 256
    shifted = omega arith

    joined : u16 (bit_or (u16 (high * 256)) low) ≡ high * 256 + low
    joined = rw (shifted, bit_or-bytes high low h l) (omega arith)

pub read_uint16-big_endian :
    (n : ℕ) (rest : List ℕ) → IsU16 n → read_uint16 (big_endian n ++ rest) ≡ ok (n, rest)
read_uint16-big_endian n rest h =
    read_uint16_lem (n / 256) (n % 256) rest (omega arith) (omega arith)
    ∙ ap (λ (k : ℕ). ok (k, rest)) (omega arith)

make_lem :
    (type : ℕ) (value : List ℕ)
    → length value ≤ 0xFFFF
    → Tlv.make type value ≡ ok (record { type = type; value = value })
unfolding Tlv.make
make_lem type value h = rw (le→ltb 0xFFFF (length value) h)

-- One TLV behind its three header bytes.
pub read_tlv_lem :
    (type high low : ℕ) (rest : List ℕ)
    → IsByte high
    → IsByte low
    → let n = high * 256 + low in
      read_tlv (type ∷ high ∷ low ∷ rest) ≡ (
        if ltb (length rest) n
        then err (runtime_error "Buffer ended prematurely while reading TLV value.")
        else ok (record { type = type; value = take n rest }, drop n rest))
unfolding read_tlv read_uint8 fetch
read_tlv_lem type high low rest h l = rw (le→ltb (suc (suc (suc (length rest)))) 3 (omega arith)) (
    rw (read_uint16_lem high low rest h l) (elim (Bool-cases (ltb (length rest) n)) [
      | inl short ↦ rw short
      | inr enough ↦
          rw enough (rw (make_lem type (take n rest) (omega (arith, length-take-le n rest))))
    ]))
  where
    n : ℕ
    n = high * 256 + low

-- A TLV in wire format is read back, and what follows is left.
pub read_tlv-wire_tlv :
    (t : Tlv) (rest : List ℕ) → Tlv.IsValid t → read_tlv (wire_tlv t ++ rest) ≡ ok (t, rest)
read_tlv-wire_tlv t rest v =
    read_tlv_lem t.type (n / 256) (n % 256) (t.value ++ rest) (omega arith) (omega arith)
    ∙ rw (
      whole,
      le→ltb (length (t.value ++ rest)) n (omega (arith, length-append t.value rest)),
      take-append t.value rest,
      drop-append t.value rest,
    )
  where
    n : ℕ
    n = length t.value

    whole : n / 256 * 256 + n % 256 ≡ n
    whole = omega arith

pub taken :
    (type high low : ℕ) (rest : List ℕ)
    → All IsByte (type ∷ high ∷ low ∷ rest)
    → let n = high * 256 + low in
      ltb (length rest) n ≡ false
      → (type ∷ high ∷ low ∷ rest
          ≡ wire_tlv (record { type = type; value = take n rest }) ++ drop n rest)
        × Tlv.IsValid (record { type = type; value = take n rest })
        × All IsByte (drop n rest)
taken type high low rest h enough = (
  rw (length-take n rest (ground arith), upper, lower, take-append-drop n rest),
  record {
    type_byte = h.0;
    value_bytes = All-take IsByte n rest h.1.1.1;
    fits = omega (arith, length-take-le n rest, h.1.0, h.1.1.0);
  },
  All-drop IsByte n rest h.1.1.1,
)
  where
    n : ℕ
    n = high * 256 + low

    upper : (high * 256 + low) / 256 ≡ high
    upper = omega arith

    lower : (high * 256 + low) % 256 ≡ low
    lower = omega arith

-- Reading never leaves the buffer. What it takes is the wire format of a valid TLV.
pub read_tlv-Safely :
    (ptr : List ℕ)
    → All IsByte ptr
    → Safely
        (λ (t, rest). (ptr ≡ wire_tlv t ++ rest) × Tlv.IsValid t × All IsByte rest)
        (read_tlv ptr)
read_tlv-Safely [] h = unfold read_tlv in tt
read_tlv-Safely (a ∷ []) h = unfold read_tlv in tt
read_tlv-Safely (a ∷ b ∷ []) h = unfold read_tlv in tt
read_tlv-Safely (type ∷ high ∷ low ∷ rest) h =
    rw (read_tlv_lem type high low rest h.1.0 h.1.1.0) (elim (Bool-cases (ltb (length rest) n)) [
      | inl short ↦ rw short tt
      | inr enough ↦ rw enough (taken type high low rest h enough)
    ])
  where
    n : ℕ
    n = high * 256 + low
