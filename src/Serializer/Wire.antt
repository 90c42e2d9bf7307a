-- ===== src/Serializer/Wire.antt =====
-- The wire format as plain concatenation, and that the writes through `ptr` produce it.
use ieee.Prelude.{
  ℕ, ◌/◌, ◌%◌, ◌≤◌, ◌<◌, ◌≡◌, refl, sym, subst, subst₂, ◌∙◌, arith, u8, u16, bit_and, length,
  replicate, List, [], ◌∷◌, ◌++◌, Bool, true, false, if◌then◌else◌, All, All-append, IsByte, IsU16,
  length-append, length-replicate, Bool-cases, inl, inr,
}
use ieee.Prelude.Bits.{bit_and-byte}
use ieee.Result.{Result, ok, ◌>>=◌}
use ieee.Bytes.{Writer, put, copy}
use ieee.Bytes.Writes.{Writes, put-Writes, copy-Writes, Writes-nil, Writes-append, Writes-fills}
use ieee.Tlv.{Tlv, tlv_header_size, get_type, get_length, get_value, get_packet_size}
use ieee.Tlv
use ieee.Cmdu
use ieee.Cmdu.{Cmdu, cmdu_header_size, get_version, ends_message}
use ieee.Cmdu.Ending.{end_tlv}
use ieee.Serializer.{
  write_uint16, write_uint8, packet_sizes, write_tlv, write_tlvs, write_header,
  write_end_of_message, total_size, pack,
}

-- Network byte order.
abbrev pub big_endian : ℕ → List ℕ
big_endian n = (n / 256) ∷ (n % 256) ∷ []

abbrev pub wire_tlv : Tlv → List ℕ
wire_tlv t = t.type ∷ (big_endian (length t.value) ++ t.value)

abbrev pub wire_tlvs : List Tlv → List ℕ
wire_tlvs [] = []
wire_tlvs (t ∷ ts) = wire_tlv t ++ wire_tlvs ts

abbrev pub wire_fields : Cmdu → List ℕ
wire_fields c = big_endian c.type ++ (big_endian c.id ++ (c.fragment_id ∷ c.flags ∷ []))

-- The version and the reserved byte are 0.
abbrev pub wire_header : Cmdu → List ℕ
wire_header c = 0 ∷ 0 ∷ wire_fields c

-- The END_OF_MESSAGE that `Pack` adds if there is none at the end.
abbrev pub closing : List Tlv → List Tlv
closing ts = if ends_message ts then [] else end_tlv ∷ []

abbrev pub wire : Cmdu → List ℕ
wire c = wire_header c ++ (wire_tlvs c.tlvs ++ wire_tlvs (closing c.tlvs))

pub write_uint16-Writes : (n : ℕ) → IsU16 n → Writes (write_uint16 n) (big_endian n)
unfolding write_uint16
write_uint16-Writes n h =
    subst₂ (λ hi lo. Writes (λ w. put hi w >>= λ w'. put lo w') (big_endian n)) (sym high) (sym low)
      (Writes-append (put-Writes (n / 256)) (put-Writes (n % 256)))
  where
    high : u8 (bit_and (n / 256) 0xFF) ≡ n / 256
    high = rw (bit_and-byte (n / 256) (omega arith)) (omega arith)

    low : u8 (bit_and n 0xFF) ≡ n % 256
    low = rw (bit_and-byte n h) (omega arith)

write_uint8-Writes : (n : ℕ) → Writes (write_uint8 n) (n ∷ [])
unfolding write_uint8
write_uint8-Writes n = put-Writes n

pub write_tlv-Writes : (t : Tlv) → Tlv.IsValid t → Writes (write_tlv t) (wire_tlv t)
unfolding write_tlv get_type get_length get_value
write_tlv-Writes t v =
    subst
      (λ n.
        Writes (λ w. write_uint8 t.type w >>= λ w₁. write_uint16 n w₁ >>= λ w₂. copy t.value w₂)
          (wire_tlv t))
      (sym short)
      (Writes-append (write_uint8-Writes t.type)
        (Writes-append (write_uint16-Writes (length t.value) (omega arith)) (copy-Writes t.value)))
  where
    short : u16 (length t.value) ≡ length t.value
    short = let bound : length t.value ≤ 0xFFFF = v.fits in omega arith

pub write_tlvs-Writes : (ts : List Tlv) → All Tlv.IsValid ts → Writes (write_tlvs ts) (wire_tlvs ts)
unfolding write_tlvs
write_tlvs-Writes [] v = Writes-nil
write_tlvs-Writes (t ∷ ts) v = Writes-append (write_tlv-Writes t v.0) (write_tlvs-Writes ts v.1)

write_header-Writes : (c : Cmdu) → Cmdu.IsValid c → Writes (write_header c) (wire_header c)
unfolding write_header get_version
write_header-Writes c v = Writes-append (write_uint8-Writes 0) (
    Writes-append (write_uint8-Writes 0) (
      Writes-append (write_uint16-Writes c.type v.type_u16) (
        Writes-append (write_uint16-Writes c.id v.id_u16)
          (Writes-append (write_uint8-Writes c.fragment_id) (write_uint8-Writes c.flags)))))

write_end_of_message-Writes : Writes write_end_of_message (wire_tlv end_tlv)
unfolding write_end_of_message
write_end_of_message-Writes =
    Writes-append (write_uint8-Writes 0) (write_uint16-Writes 0 (omega arith))

write_closing-Writes :
    (b : Bool)
    → Writes
        (λ w. if b then ok w else write_end_of_message w)
        (wire_tlvs (if b then [] else end_tlv ∷ []))
write_closing-Writes true = Writes-nil
write_closing-Writes false = write_end_of_message-Writes

length-wire_tlvs : (ts : List Tlv) → length (wire_tlvs ts) ≡ packet_sizes ts
unfolding packet_sizes get_packet_size
length-wire_tlvs [] = refl
length-wire_tlvs (t ∷ ts) = omega (arith, length-wire_tlvs ts, length-append t.value (wire_tlvs ts))

-- The size that `Pack` computes before it writes is the size of what it writes.
pub length-wire : (c : Cmdu) → length (wire c) ≡ total_size c
unfolding total_size
length-wire c = elim (Bool-cases (ends_message c.tlvs)) [
  | inl e ↦ rw e (omega (arith, length-wire_tlvs c.tlvs, length-append (wire_tlvs c.tlvs) []))
  | inr e ↦
      rw e
        (omega (arith, length-wire_tlvs c.tlvs, length-append (wire_tlvs c.tlvs) (0 ∷ 0 ∷ 0 ∷ [])))
]

abbrev write_all : Cmdu → Writer → Result Writer
write_all c w = write_header c w >>= λ w₁.
    write_tlvs c.tlvs w₁ >>= λ w₂. if ends_message c.tlvs then ok w₂ else write_end_of_message w₂

write_all-Writes : (c : Cmdu) → Cmdu.IsValid c → Writes (write_all c) (wire c)
write_all-Writes c v = Writes-append (write_header-Writes c v) (
    Writes-append (write_tlvs-Writes c.tlvs v.tlvs_valid)
      (write_closing-Writes (ends_message c.tlvs)))

pack-write_all :
    (c : Cmdu)
    → pack c
      ≡ (write_all c (record { buffer = replicate (total_size c) 0; pos = 0 }) >>= λ w. ok w.buffer)
unfolding pack
pack-write_all c = ground arith

-- For a message with values in the ranges of their C++ types, `Pack` never writes past the vector
-- that it allocated, fills it to its end, and returns the wire format.
pub pack-wire : (c : Cmdu) → Cmdu.IsValid c → pack c ≡ ok (wire c)
pack-wire c v =
    pack-write_all c
    ∙ rw (
        Writes-fills (write_all c) (wire c) (replicate (total_size c) 0) (write_all-Writes c v)
          (length-replicate (total_size c) 0 ∙ sym (length-wire c)))

wire_tlvs-IsByte : (ts : List Tlv) → All Tlv.IsValid ts → All IsByte (wire_tlvs ts)
wire_tlvs-IsByte [] v = tt
wire_tlvs-IsByte (t ∷ ts) v = (
  v.0.type_byte,
  (
    upper (length t.value) v.0.fits,
    (
      omega arith,
      All-append IsByte t.value (wire_tlvs ts) v.0.value_bytes (wire_tlvs-IsByte ts v.1),
    ),
  ),
)
  where
    upper : (n : ℕ) → n ≤ 65535 → n / 256 < 256
    upper n h = omega arith

closing-IsValid : (ts : List Tlv) → All Tlv.IsValid (closing ts)
closing-IsValid ts = elim (Bool-cases (ends_message ts)) [
  | inl e ↦ rw e tt
  | inr e ↦ rw e (omega arith)
]

-- The wire format consists of bytes.
pub wire-IsByte : (c : Cmdu) → Cmdu.IsValid c → All IsByte (wire c)
wire-IsByte c v = (
  omega arith,
  (
    omega arith,
    (
      upper c.type v.type_u16,
      (
        omega arith,
        (
          upper c.id v.id_u16,
          (
            omega arith,
            (
              v.fragment_byte,
              (
                v.flags_byte,
                All-append IsByte (wire_tlvs c.tlvs) _ (wire_tlvs-IsByte c.tlvs v.tlvs_valid)
                    (wire_tlvs-IsByte (closing c.tlvs) (closing-IsValid c.tlvs)),
              ),
            ),
          ),
        ),
      ),
    ),
  ),
)
  where
    upper : (n : ℕ) → n < 65536 → n / 256 < 256
    upper n h = omega arith
