-- ===== src/Tests/TlvTest.antt =====
-- The cases of tests/tlv_test.cpp, run on the model.
use ieee.Prelude.{ℕ, ◌+◌, ◌≡◌, refl, length, replicate, List, [], ◌∷◌, ◌++◌}
use ieee.Result.{Result, ok, err, runtime_error, length_error, ◌>>=◌}
use ieee.Bytes.{put, copy, fetch}
use ieee.Tlv
use ieee.Tlv.{Tlv, get_type, get_length, get_value, get_packet_size, tlv_header_size}
use ieee.TlvTypes.{vendor_specific, al_mac_address_type, device_information_type, end_of_message}
use ieee.TlvTypes
use ieee.CmduTypes.{topology_query}
use ieee.CmduTypes
use ieee.Cmdu
use ieee.Cmdu.{Cmdu, add_tlv, ends_message, last_fragment, relay, get_version}
use ieee.Cmdu.Ending.{end_tlv}
use ieee.Serializer.{
  pack, write_uint16, write_uint8, packet_sizes, write_tlv, write_tlvs, write_header,
  write_end_of_message, total_size,
}
use ieee.Parser.{parse, read_uint16, read_uint8, read_tlv, read_tlvs, read_header, check_end}

abbrev facts : Tlv → ℕ × ℕ × ℕ × List ℕ
facts tlv = (get_type tlv, get_length tlv, get_packet_size tlv, get_value tlv)

basic_initialization :
    (Tlv.make vendor_specific (0xAA ∷ 0xBB ∷ 0xCC ∷ 0xDD ∷ []) >>= λ tlv. ok (facts tlv))
    ≡ ok (vendor_specific, 4, tlv_header_size + 4, 0xAA ∷ 0xBB ∷ 0xCC ∷ 0xDD ∷ [])
unfolding Tlv.make get_type get_length get_packet_size get_value
basic_initialization = refl

empty_tlv :
    (Tlv.make end_of_message [] >>= λ tlv. ok (facts tlv))
    ≡ ok (end_of_message, 0, tlv_header_size, [])
unfolding Tlv.make get_type get_length get_packet_size get_value
empty_tlv = refl

-- A vector of 65536 bytes.
length_limit_check :
    Tlv.make 0xFF (replicate 0x10000 0)
    ≡ err (length_error "TLV value length exceeds maximum 16-bit limit (65535 bytes).")
unfolding Tlv.make
length_limit_check = refl

parser_incomplete_header :
    parse (0x00 ∷ 0x01 ∷ 0xAA ∷ 0xBB ∷ 0xCC ∷ [])
    ≡ err (runtime_error "Buffer size is smaller than the minimum CMDU header size.")
unfolding parse
parser_incomplete_header = refl

mac_query : Cmdu
mac_query =
    add_tlv (record { type = al_mac_address_type; value = 2 ∷ 0 ∷ 0 ∷ 0 ∷ 0 ∷ 1 ∷ [] })
      (Cmdu.make topology_query 0x1234 last_fragment 0)

serialization_wire_format :
    pack mac_query
    ≡ ok (
        0x00 ∷ 0x00 ∷ 0x00 ∷ 0x02 ∷ 0x12 ∷ 0x34 ∷ 0x00 ∷ 0x80 ∷ 0x01 ∷ 0x00 ∷ 0x06 ∷ 0x02 ∷ 0x00
        ∷ 0x00 ∷ 0x00 ∷ 0x00 ∷ 0x01 ∷ 0x00 ∷ 0x00 ∷ 0x00 ∷ [])
unfolding mac_query pack Cmdu.make add_tlv ends_message get_type get_length get_packet_size
    get_value get_version write_uint16 write_uint8 packet_sizes write_tlv write_tlvs write_header
    write_end_of_message total_size put copy
serialization_wire_format = refl

link_query : Cmdu
link_query =
    add_tlv (record { type = TlvTypes.link_metric_query; value = 0x01 ∷ [] })
      (add_tlv
        (record {
          type = device_information_type;
          value = 0xAA ∷ 0xBB ∷ 0xCC ∷ 0xDD ∷ 0xEE ∷ 0xFF ∷ [];
        })
        (Cmdu.make CmduTypes.link_metric_query 0xABBA (last_fragment + relay) 0))

abbrev sized : ℕ → Result Cmdu → Result (ℕ × Cmdu)
sized n r = r >>= λ c. ok (n, c)

serialization_and_parsing_round_trip :
    (pack link_query >>= λ bytes. sized (length bytes) (parse bytes))
    ≡ ok (
      24,
      record {
        type = CmduTypes.link_metric_query;
        id = 0xABBA;
        flags = 0xC0;
        fragment_id = 0;
        tlvs =
            record {
              type = device_information_type;
              value = 0xAA ∷ 0xBB ∷ 0xCC ∷ 0xDD ∷ 0xEE ∷ 0xFF ∷ [];
            }
            ∷ record { type = TlvTypes.link_metric_query; value = 0x01 ∷ [] }
            ∷ end_tlv
            ∷ [];
      },
    )
unfolding link_query pack Cmdu.make Tlv.make add_tlv ends_message get_type get_length
    get_packet_size get_value get_version write_uint16 write_uint8 packet_sizes write_tlv write_tlvs
    write_header write_end_of_message total_size put copy fetch parse read_uint16 read_uint8
    read_tlv read_tlvs read_header check_end
serialization_and_parsing_round_trip = refl

-- The empty message, padded to 46 bytes.
parser_ignores_padding :
    (pack (Cmdu.make topology_query 0x0042 last_fragment 0) >>= λ bytes.
    parse (bytes ++ replicate 35 0))
    ≡ ok (record {
      type = topology_query;
      id = 0x0042;
      flags = last_fragment;
      fragment_id = 0;
      tlvs = end_tlv ∷ [];
    })
unfolding pack Cmdu.make Tlv.make add_tlv ends_message get_type get_length get_packet_size get_value
    get_version write_uint16 write_uint8 packet_sizes write_tlv write_tlvs write_header
    write_end_of_message total_size put copy fetch parse read_uint16 read_uint8 read_tlv read_tlvs
    read_header check_end
parser_ignores_padding = refl
