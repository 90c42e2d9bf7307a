-- ===== src/Lldp.antt =====
-- include/ieee1905_1/lldp.h and src/lldp.cpp: an LLDP data unit, a list of TLVs with a 2-byte header.
pub mod Size
pub mod Refusals
use ieee.Prelude.{ℕ, ◌+◌, ◌==◌, ltb, if◌then◌else◌, List, [], ◌∷◌}
use ieee.Result.{Result, ok, err, length_error, runtime_error, invalid_argument, ◌>>=◌}
use ieee.Tlv.{Tlv, get_type, get_length}
use ieee.LldpTlvTypes.{end_of_lldpdu, organization_specific}
use ieee.Cmdu.Vector.{push_back}

abbrev pub lldp_tlv_header_size : ℕ
lldp_tlv_header_size = 2

pub record LldpPdu : Type 0 where
  pub tlvs : List Tlv

-- The constructor adds nothing.
unfoldable pub make : LldpPdu
make = record { tlvs = [] }

unfoldable pub add_tlv : Tlv → LldpPdu → Result LldpPdu
add_tlv tlv pdu =
    if get_type tlv == end_of_lldpdu
    then err
        (invalid_argument "END_OF_LLDPDU must not be added manually. It is managed by LldpPdu.")
    else if ltb organization_specific (get_type tlv)
    then err (invalid_argument "LLDP TLV Type exceeds 7-bit limit (max 127).")
    else if ltb 0x1FF (get_length tlv)
    then err (length_error "LLDP TLV Value length exceeds 9-bit limit (max 511 bytes).")
    else ok (record { tlvs = push_back pdu.tlvs tlv })

-- The loop, with `total_size` as its accumulator.
unfoldable pub add_sizes : ℕ → List Tlv → Result ℕ
add_sizes total_size [] = ok total_size
add_sizes total_size (t ∷ ts) =
    let rest = add_sizes (total_size + (lldp_tlv_header_size + get_length t)) ts in
    if ltb 0x1FF (get_length t)
    then err (runtime_error "Cannot pack: A TLV length exceeds 511 bytes.")
    else rest

unfoldable pub get_packed_size : LldpPdu → Result ℕ
unfolding add_sizes
get_packed_size pdu = do total_size ← add_sizes 0 pdu.tlvs; ok (total_size + lldp_tlv_header_size)
