-- ===== src/Cmdu.antt =====
-- include/ieee1905_1/cmdu.h and src/cmdu.cpp: a control message, its header fields and its TLVs.
pub mod Vector
pub mod Ending
pub mod Adding
pub mod Finding
pub mod Building
pub mod Log
use ieee.Prelude.{
  ℕ, ◌==◌, if◌then◌else◌, IsByte, IsU16, All, List, [], ◌∷◌, ◌++◌, Option, none, some, Bool, true,
  false, ◌+◌,
}
use ieee.Tlv.{Tlv, get_type}
use ieee.Tlv
use ieee.TlvTypes.{end_of_message}
use Vector.{back?, pop_back, push_back}

-- The flag bits.
abbrev pub last_fragment : ℕ
last_fragment = 0x80

abbrev pub relay : ℕ
relay = 0x40

abbrev pub message_version : ℕ
message_version = 0x00

-- sizeof of the version, one reserved byte, type, id, fragment id and flags.
abbrev pub cmdu_header_size : ℕ
cmdu_header_size = 1 + 1 + 2 + 2 + 1 + 1

pub record Cmdu : Type 0 where
  pub type : ℕ  -- uint16_t
  pub id : ℕ  -- uint16_t
  pub flags : ℕ  -- uint8_t
  pub fragment_id : ℕ  -- uint8_t
  pub tlvs : List Tlv

-- The constructor. Its default arguments are `last_fragment` and 0.
unfoldable pub make : ℕ → ℕ → ℕ → ℕ → Cmdu
make type id flags fragment_id = record {
  type = type;
  id = id;
  flags = flags;
  fragment_id = fragment_id;
  tlvs = [];
}

unfoldable pub get_version : Cmdu → ℕ
get_version c = message_version

-- `!tlvs.empty() && tlvs.back().GetType() == TlvTypes::END_OF_MESSAGE`.
unfoldable pub ends_message : List Tlv → Bool
unfolding get_type
ends_message tlvs = elim (back? tlvs) [ none ↦ false | some t ↦ get_type t == end_of_message ]

-- A final END_OF_MESSAGE is taken off, the new TLV is pushed, and the END_OF_MESSAGE again.
unfoldable pub add_tlv : Tlv → Cmdu → Cmdu
unfolding ends_message
add_tlv tlv c = elim (back? c.tlvs) [
  | none ↦ record c { tlvs = push_back c.tlvs tlv }
  | some end_tlv ↦
      if get_type end_tlv == end_of_message
      then record c { tlvs = push_back (push_back (pop_back c.tlvs) tlv) end_tlv }
      else record c { tlvs = push_back c.tlvs tlv }
]

-- std::find_if over the vector; `nullptr` is `none`.
unfoldable pub find_if : ℕ → List Tlv → Option Tlv
unfolding get_type
find_if type [] = none
find_if type (t ∷ ts) = if get_type t == type then some t else find_if type ts

unfoldable pub find_tlv : ℕ → Cmdu → Option Tlv
unfolding find_if
find_tlv type c = find_if type c.tlvs

-- The ranges that the C++ types guarantee, and TLVs that their constructor made.
pub record IsValid (c : Cmdu) : Type 0 where
  pub type_u16 : IsU16 c.type
  pub id_u16 : IsU16 c.id
  pub flags_byte : IsByte c.flags
  pub fragment_byte : IsByte c.fragment_id
  pub tlvs_valid : All Tlv.IsValid c.tlvs
