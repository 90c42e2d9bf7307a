-- ===== src/Serializer/Bounds.antt =====
-- The sum of sizes in `Pack` as a size_t of 64 bits.
use ieee.Prelude.{◌+◌, ◌*◌, ◌^◌, ◌≤◌, ◌<◌, arith, length, All, List, [], ◌∷◌}
use ieee.Tlv
use ieee.Tlv.{Tlv, get_packet_size}
use ieee.Cmdu
use ieee.Cmdu.{Cmdu}
use ieee.Serializer.{packet_sizes, total_size}

packet_sizes-le : (ts : List Tlv) → All Tlv.IsValid ts → packet_sizes ts ≤ 65538 * length ts
unfolding packet_sizes get_packet_size
packet_sizes-le [] v = omega arith
packet_sizes-le (t ∷ ts) v = omega (arith, v.0, packet_sizes-le ts v.1)

-- The size that `Pack` computes for a valid message of at most 2^47 TLVs is at most eleven bytes and
-- 65538 for each TLV, so that its sum does not wrap in a size_t of 64 bits.
pub total_size_bounds :
    (c : Cmdu)
    → Cmdu.IsValid c
    → length c.tlvs ≤ 2 ^ 47
    → (total_size c ≤ 11 + 65538 * length c.tlvs) × (total_size c < 2 ^ 64)
unfolding total_size
total_size_bounds c v few = let sizes = packet_sizes-le c.tlvs v.tlvs_valid in ground (arith, sizes)
