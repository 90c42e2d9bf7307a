-- ===== src/Parser.antt =====
-- include/ieee1905_1/parser.h and src/parser.cpp: a message from bytes in network byte order.
pub mod Tokens
pub mod Loop
pub mod Termination
pub mod Frame
pub mod Scan
pub mod Outcomes
pub mod Errors
pub mod RoundTrip
pub mod Delivery
pub mod Injective
pub mod Refinement
use ieee.Prelude.{
  ℕ, zero, suc, ◌*◌, ltb, ◌==◌, if◌then◌else◌, u16, bit_or, length, take, drop, List, [], ◌∷◌, not,
}
use ieee.Result.{Result, ok, err, runtime_error, out_of_fuel, ◌>>=◌}
use ieee.Bytes.{fetch}
use ieee.Tlv
use ieee.Tlv.{Tlv, tlv_header_size}
use ieee.TlvTypes.{end_of_message}
use ieee.Cmdu
use ieee.Cmdu.{Cmdu, cmdu_header_size, add_tlv, ends_message}

-- `uint16_t value = (*ptr++) << 8; value |= (*ptr++);`
unfoldable pub read_uint16 : List ℕ → Result (ℕ × List ℕ)
read_uint16 ptr = do
  (high, ptr₁) ← fetch ptr
  (low, ptr₂) ← fetch ptr₁
  ok (u16 (bit_or (u16 (high * 256)) low), ptr₂)

unfoldable pub read_uint8 : List ℕ → Result (ℕ × List ℕ)
read_uint8 ptr = fetch ptr

-- The body of the loop up to the construction of the TLV. `ptr` is what is left of the buffer.
unfoldable pub read_tlv : List ℕ → Result (Tlv × List ℕ)
read_tlv ptr =
    if ltb (length ptr) tlv_header_size
    then err (runtime_error "Incomplete TLV header found at end of buffer.")
    else do
      (tlv_type, ptr₁) ← read_uint8 ptr
      (tlv_length, ptr₂) ← read_uint16 ptr₁
      if ltb (length ptr₂) tlv_length
          then err (runtime_error "Buffer ended prematurely while reading TLV value.")
          else do tlv ← Tlv.make tlv_type (take tlv_length ptr₂); ok (tlv, drop tlv_length ptr₂)

-- `while (ptr < end_ptr)`, with the `break` at END_OF_MESSAGE.
unfoldable pub read_tlvs : ℕ → List ℕ → Cmdu → Result Cmdu
read_tlvs fuel [] c = ok c
read_tlvs zero (b ∷ bs) c = err out_of_fuel
read_tlvs (suc fuel) (b ∷ bs) c = do
  (tlv, ptr) ← read_tlv (b ∷ bs)
  let c' = add_tlv tlv c
  let more = read_tlvs fuel ptr c'
  if tlv.type == end_of_message then ok c' else more

-- The check behind the loop.
unfoldable pub check_end : Cmdu → Result Cmdu
check_end c =
    if not (ends_message c.tlvs)
    then err (runtime_error "CMDU does not terminate with END_OF_MESSAGE TLV.")
    else ok c

unfoldable pub read_header : List ℕ → Result (Cmdu × List ℕ)
read_header ptr = do
  (_, ptr₁) ← read_uint8 ptr
  (_, ptr₂) ← read_uint8 ptr₁
  (type, ptr₃) ← read_uint16 ptr₂
  (id, ptr₄) ← read_uint16 ptr₃
  (fragment_id, ptr₅) ← read_uint8 ptr₄
  (flags, ptr₆) ← read_uint8 ptr₅
  ok (Cmdu.make type id flags fragment_id, ptr₆)

-- Each round of the loop takes three bytes at least, so the length of the buffer is fuel enough.
unfoldable pub parse : List ℕ → Result Cmdu
parse buffer =
    if ltb (length buffer) cmdu_header_size
    then err (runtime_error "Buffer size is smaller than the minimum CMDU header size.")
    else do (c, ptr) ← read_header buffer; c' ← read_tlvs (length ptr) ptr c; check_end c'
