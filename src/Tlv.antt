-- ===== src/Tlv.antt =====
-- include/ieee1905_1/tlv.h and src/tlv.cpp: one type-length-value element of a message.
pub mod Construction
use ieee.Prelude.{ℕ, ◌+◌, ◌≤◌, ltb, if◌then◌else◌, u16, length, List, All, IsByte}
use ieee.Result.{Result, ok, err, length_error}

-- `m_type` is a uint8_t and `m_value` a vector of uint8_t.
pub record Tlv : Type 0 where
  pub type : ℕ
  pub value : List ℕ

-- sizeof(TlvType) + sizeof(TlvLength).
abbrev pub tlv_header_size : ℕ
tlv_header_size = 1 + 2

-- The two constructors, by copy and by move, build the same value.
unfoldable pub make : ℕ → List ℕ → Result Tlv
make type value_data =
    if ltb 0xFFFF (length value_data)
    then err (length_error "TLV value length exceeds maximum 16-bit limit (65535 bytes).")
    else ok (record { type = type; value = value_data })

unfoldable pub get_type : Tlv → ℕ
get_type t = t.type

-- `static_cast<TlvLength>(m_value.size())`.
unfoldable pub get_length : Tlv → ℕ
get_length t = u16 (length t.value)

unfoldable pub get_value : Tlv → List ℕ
get_value t = t.value

unfoldable pub get_packet_size : Tlv → ℕ
get_packet_size t = tlv_header_size + length t.value

-- What the C++ types and the constructor's check guarantee of a Tlv.
pub record IsValid (t : Tlv) : Type 0 where
  pub type_byte : IsByte t.type
  pub value_bytes : All IsByte t.value
  pub fits : length t.value ≤ 0xFFFF
