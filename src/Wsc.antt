-- ===== src/Wsc.antt =====
-- include/ieee1905_1/wsc.h and src/wsc.cpp: a Wi-Fi Simple Configuration message, a map from
-- 16-bit attribute types to values, and its encoding in the value of a TLV.
pub mod Entries
pub mod Packing
pub mod Bounds
pub mod Attributes
pub mod Fields
pub mod Termination
pub mod Parsing
pub mod Errors
pub mod Carrying
pub mod Normal
pub mod Canonical
pub mod Contents
pub mod Refinement
pub mod Delivery
use ieee.Prelude.{
  ℕ, zero, suc, ◌+◌, ◌*◌, ◌/◌, ltb, if◌then◌else◌, u8, u16, bit_and, bit_or, length, take, drop,
  replicate, List, [], ◌∷◌, Option, none, some,
}
use ieee.Result.{Result, ok, err, length_error, runtime_error, out_of_fuel, ◌>>=◌}
use ieee.Bytes.{Writer, put, copy, fetch}
use ieee.Tlv
use ieee.Tlv.{Tlv}
use ieee.TlvTypes
use Entries.{Map, find, insert_or_assign}

-- The TLV type that carries a WSC message.
abbrev pub wsc_messaging_tlv : ℕ
wsc_messaging_tlv = TlvTypes.wsc

-- The attribute types. The first two have the same number in the source.
abbrev pub wsc_version : ℕ
wsc_version = 0x104A

abbrev pub wsc_state : ℕ
wsc_state = 0x104A

abbrev pub wsc_authentication : ℕ
wsc_authentication = 0x1004

abbrev pub wsc_ssid : ℕ
wsc_ssid = 0x1045

unfoldable pub write_uint16_be : ℕ → Writer → Result Writer
write_uint16_be value w = do
  w' ← put (u8 (bit_and (value / 256) 0xFF)) w
  put (u8 (bit_and value 0xFF)) w'

unfoldable pub read_uint16_be : List ℕ → Result (ℕ × List ℕ)
read_uint16_be ptr = do
  (high, ptr₁) ← fetch ptr
  (low, ptr₂) ← fetch ptr₁
  ok (u16 (bit_or (u16 (high * 256)) low), ptr₂)

pub record WscMessage : Type 0 where
  pub attributes : Map (List ℕ)

-- The default constructor.
unfoldable pub make : WscMessage
make = record { attributes = [] }

unfoldable pub add_attribute : ℕ → List ℕ → WscMessage → Result WscMessage
add_attribute attribute_type value_data m =
    if ltb 0xFFFF (length value_data)
    then err (length_error "WSC Attribute value length exceeds 16-bit limit.")
    else ok (record { attributes = insert_or_assign attribute_type value_data m.attributes })

-- The sum of the first loop of PackAttributes.
unfoldable pub attribute_sizes : Map (List ℕ) → ℕ
attribute_sizes [] = 0
attribute_sizes ((k, v) ∷ m) = 4 + length v + attribute_sizes m

unfoldable pub write_attribute : ℕ → List ℕ → Writer → Result Writer
write_attribute attr_type attr_value w = do
  w₁ ← write_uint16_be attr_type w
  w₂ ← write_uint16_be (u16 (length attr_value)) w₁
  copy attr_value w₂

unfoldable pub write_attributes : Map (List ℕ) → Writer → Result Writer
write_attributes [] w = ok w
write_attributes ((k, v) ∷ m) w = do w' ← write_attribute k v w; write_attributes m w'

unfoldable pub pack_attributes : WscMessage → Result (List ℕ)
pack_attributes m = do
  let start : Writer = record { buffer = replicate (attribute_sizes m.attributes) 0; pos = 0 }
  w ← write_attributes m.attributes start
  ok w.buffer

-- One round of the loop of ParseAttributes, up to the assignment into the map.
unfoldable pub read_attribute : List ℕ → Result ((ℕ × List ℕ) × List ℕ)
read_attribute ptr =
    if ltb (length ptr) 4
    then err (runtime_error "Incomplete WSC Attribute header in WscMessage.")
    else do
      (attr_type, ptr₁) ← read_uint16_be ptr
      (attr_length, ptr₂) ← read_uint16_be ptr₁
      if ltb (length ptr₂) attr_length
          then err (runtime_error "WSC Attribute value truncated.")
          else ok ((attr_type, take attr_length ptr₂), drop attr_length ptr₂)

-- `while (ptr < end_ptr)`.
unfoldable pub read_attributes : ℕ → List ℕ → Map (List ℕ) → Result (Map (List ℕ))
read_attributes fuel [] m = ok m
read_attributes zero (b ∷ bs) m = err out_of_fuel
read_attributes (suc fuel) (b ∷ bs) m = do
  (a, ptr) ← read_attribute (b ∷ bs)
  read_attributes fuel ptr (insert_or_assign a.0 a.1 m)

-- The map is cleared first. Each round takes four bytes at least.
unfoldable pub parse_attributes : List ℕ → Result WscMessage
parse_attributes raw_wsc_data = do
  m ← read_attributes (length raw_wsc_data) raw_wsc_data []
  ok (record { attributes = m })

-- The constructor from raw data.
unfoldable pub from_raw : List ℕ → Result WscMessage
from_raw raw_wsc_data = parse_attributes raw_wsc_data

unfoldable pub to_tlv : WscMessage → Result Tlv
to_tlv m = do packed_attributes ← pack_attributes m; Tlv.make wsc_messaging_tlv packed_attributes

unfoldable pub get_attribute_value : ℕ → WscMessage → List ℕ
get_attribute_value attribute_type m = elim (find attribute_type m.attributes) [
  | none ↦ []
  | some value ↦ value
]
