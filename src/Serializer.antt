-- ===== src/Serializer.antt =====
-- include/ieee1905_1/serializer.h and src/serializer.cpp: a message as bytes in network byte order.
pub mod Wire
pub mod Bounds
use ieee.Prelude.{
  ℕ, ◌+◌, ◌/◌, u8, bit_and, length, replicate, List, [], ◌∷◌, Bool, true, false, if◌then◌else◌, not,
}
use ieee.Result.{Result, ok, ◌>>=◌}
use ieee.Bytes.{Writer, put, copy}
use ieee.Tlv.{Tlv, tlv_header_size, get_type, get_length, get_value, get_packet_size}
use ieee.TlvTypes.{end_of_message}
use ieee.Cmdu
use ieee.Cmdu.{Cmdu, cmdu_header_size, get_version, ends_message}

-- `(value >> 8) & 0xFF`, then `value & 0xFF`.
unfoldable pub write_uint16 : ℕ → Writer → Result Writer
write_uint16 value w = do
  w' ← put (u8 (bit_and (value / 256) 0xFF)) w
  put (u8 (bit_and value 0xFF)) w'

unfoldable pub write_uint8 : ℕ → Writer → Result Writer
write_uint8 value w = put value w

-- The sum of the first loop.
unfoldable pub packet_sizes : List Tlv → ℕ
packet_sizes [] = 0
packet_sizes (t ∷ ts) = get_packet_size t + packet_sizes ts

-- One round of the second loop.
unfoldable pub write_tlv : Tlv → Writer → Result Writer
write_tlv t w = do
  w₁ ← write_uint8 (get_type t) w
  w₂ ← write_uint16 (get_length t) w₁
  copy (get_value t) w₂

unfoldable pub write_tlvs : List Tlv → Writer → Result Writer
write_tlvs [] w = ok w
write_tlvs (t ∷ ts) w = do w' ← write_tlv t w; write_tlvs ts w'

unfoldable pub write_header : Cmdu → Writer → Result Writer
write_header c w = do
  w₁ ← write_uint8 (get_version c) w
  w₂ ← write_uint8 0 w₁
  w₃ ← write_uint16 c.type w₂
  w₄ ← write_uint16 c.id w₃
  w₅ ← write_uint8 c.fragment_id w₄
  write_uint8 c.flags w₅

unfoldable pub write_end_of_message : Writer → Result Writer
write_end_of_message w = do w' ← write_uint8 end_of_message w; write_uint16 0 w'

unfoldable pub total_size : Cmdu → ℕ
unfolding packet_sizes
total_size c =
    cmdu_header_size + packet_sizes c.tlvs + (if ends_message c.tlvs then 0 else tlv_header_size)

-- `std::vector<uint8_t> buffer(total_size)` is filled with zeros and then written through `ptr`.
unfoldable pub pack : Cmdu → Result (List ℕ)
unfolding total_size write_header write_tlvs write_end_of_message
pack c = do
  let start : Writer = record { buffer = replicate (total_size c) 0; pos = 0 }
  w₁ ← write_header c start
  w₂ ← write_tlvs c.tlvs w₁
  w₃ ← (if ends_message c.tlvs then ok w₂ else write_end_of_message w₂)
  ok w₃.buffer
