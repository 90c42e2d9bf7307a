-- ===== src/Tests/Attributes.antt =====
-- Inputs for the theorems on WSC messages.
use ieee.Prelude.{◌≢◌, ℕ, ◌≡◌, ◌≤◌, ◌↔◌, refl, arith, All, IsByte, List, [], ◌∷◌}
use ieee.Result.{err, out_of_fuel, ok, ◌>>=◌}
use ieee.Tlv.{Tlv, get_type, get_value}
use ieee.Tlv
use ieee.Wsc.{
  WscMessage, add_attribute, get_attribute_value, attribute_sizes, pack_attributes,
  parse_attributes, to_tlv, from_raw, wsc_messaging_tlv, wsc_version, wsc_state,
}
use ieee.Wsc.Entries.{insert_or_assign, find}
use ieee.Wsc.Packing.{IsAttribute, IsValid, pack_attributes-wire, wire_attributes}
use ieee.Wsc.Parsing.{IsRead, parse_attributes-eq-ok_iff, parse_attributes_read}
use ieee.Wsc.Normal.{IsNormal, to_tlv-from_raw}
use ieee.Wsc.Carrying.{parse_attributes-pack_attributes, to_tlv-cases}
use ieee.Wsc.Errors.{IsMalformed, parse_attributes-eq-err_iff}
use ieee.Prelude.{none, some, ◌++◌, String, ◌⊎◌, ◌<◌}
use ieee.Result.{length_error, runtime_error}
use ieee.Cmdu
use ieee.Cmdu.{Cmdu, find_tlv}
use ieee.Cmdu.Building.{add_tlvs}
use ieee.Serializer.{pack}
use ieee.Parser.{parse}
use ieee.Wsc.{make}
use ieee.Wsc.Bounds.{attribute_sizes_bounds}
use ieee.Prelude.{length, ◌^◌}
use ieee.Wsc.Canonical.{add_attributes, assigned, add_attributes-eq_iff}
use ieee.Wsc.{
  read_attributes, write_attributes, write_attribute, write_uint16_be, read_attribute,
  read_uint16_be,
}
use ieee.Bytes.{put, copy, fetch}
use ieee.Wsc.Contents.{contents, empty}
use ieee.Wsc.Refinement.{
  Operation, add, get, journey, done, value, perform_all, expect_all, perform_all-Refines,
}
use ieee.Wsc.Termination.{read_attributes_rounds}
use ieee.Wsc.Delivery.{wsc_message_arrives}
use ieee.Cmdu.{add_tlv}
use ieee.Cmdu.Ending.{up_to_end}
use ieee.Parser.RoundTrip.{parse-pack}
use ieee.Origins.{IsMessage, IsWsc, set, added, parsed, carrier, empty as empty_wsc}
use ieee.Origins.Types.{IsMessage-Types}
use ieee.Tests.Messages.{
  two_bytes, two_bytes-IsValid, hello, hello_bytes, hello-IsValid, hello_bytes-AllByte, pack-hello,
}

abbrev ssid : WscMessage
ssid = record { attributes = (0x1045, 0x41 ∷ 0x42 ∷ []) ∷ [] }

abbrev ssid_bytes : List ℕ
ssid_bytes = 0x10 ∷ 0x45 ∷ 0 ∷ 2 ∷ 0x41 ∷ 0x42 ∷ []

ssid_bytes-AllByte : All IsByte ssid_bytes
ssid_bytes-AllByte = ground arith

ssid-AllIsAttribute : All IsAttribute ssid.attributes
ssid-AllIsAttribute =
    (record { type_u16 = omega arith; value_bytes = ground arith; fits = omega arith }, tt)

ssid-IsValid : IsValid ssid
ssid-IsValid = record { sorted = (tt, tt); attributes_valid = ssid-AllIsAttribute }

pack-ssid : pack_attributes ssid ≡ ok ssid_bytes
pack-ssid = pack_attributes-wire ssid ssid-AllIsAttribute

parse-ssid : parse_attributes ssid_bytes ≡ ok ssid
parse-ssid = rw pack-ssid at (parse_attributes-pack_attributes ssid ssid-IsValid)

to_tlv-ssid : to_tlv ssid ≡ ok (record { type = wsc_messaging_tlv; value = ssid_bytes })
unfolding to_tlv Tlv.make
to_tlv-ssid = rw pack-ssid refl

-- Another value of the attribute stands before it.
abbrev repeating : Tlv
repeating = record { type = wsc_messaging_tlv; value = 0x10 ∷ 0x45 ∷ 0 ∷ 1 ∷ 0x40 ∷ ssid_bytes }

repeating-IsValid : Tlv.IsValid repeating
repeating-IsValid = record {
  type_byte = omega arith;
  value_bytes = ground arith;
  fits = omega arith;
}

from_raw-repeating : from_raw (get_value repeating) ≡ ok ssid
unfolding from_raw insert_or_assign get_value
from_raw-repeating = parse_attributes_read repeating.value ssid (record {
  attributes = (0x1045, 0x40 ∷ []) ∷ ssid.attributes;
  layout = refl;
  in_range = (
    record { type_u16 = omega arith; value_bytes = ground arith; fits = omega arith },
    ssid-AllIsAttribute,
  );
  assigned = refl;
})

to_tlv-from_raw_example :
    (t' : Tlv) × (to_tlv ssid ≡ ok t')
    × (get_type t' ≡ wsc_messaging_tlv)
    × (from_raw (get_value t') ≡ ok ssid)
    × (length (get_value t') ≤ length (get_value repeating))
    × ((get_value t' ≡ get_value repeating) ↔ IsNormal (get_value repeating))
to_tlv-from_raw_example = to_tlv-from_raw repeating ssid repeating-IsValid from_raw-repeating

to_tlv-cases_example :
    ((attribute_sizes ssid.attributes ≤ 65535)
      × (t : Tlv) × (to_tlv ssid ≡ ok t)
      × (get_type t ≡ wsc_messaging_tlv)
      × (from_raw (get_value t) ≡ ok ssid))
    ⊎ ((65535 < attribute_sizes ssid.attributes)
        × (to_tlv ssid
            ≡ err (length_error "TLV value length exceeds maximum 16-bit limit (65535 bytes).")))
to_tlv-cases_example = to_tlv-cases ssid ssid-IsValid

parse_attributes-eq-err_iff_example :
    (parse_attributes (0x10 ∷ 0x45 ∷ 0 ∷ [])
      ≡ err (runtime_error "Incomplete WSC Attribute header in WscMessage."))
    ↔ ((what : String) × (runtime_error "Incomplete WSC Attribute header in WscMessage."
          ≡ runtime_error what)
        × IsMalformed (0x10 ∷ 0x45 ∷ 0 ∷ []) what)
parse_attributes-eq-err_iff_example =
    parse_attributes-eq-err_iff (0x10 ∷ 0x45 ∷ 0 ∷ [])
      (runtime_error "Incomplete WSC Attribute header in WscMessage.") (omega arith)

parse_attributes-eq-ok_iff_example :
    (parse_attributes ssid_bytes ≡ ok ssid) ↔ IsRead ssid_bytes [] ssid.attributes
parse_attributes-eq-ok_iff_example = parse_attributes-eq-ok_iff ssid_bytes ssid ssid_bytes-AllByte

pack_attributes-wire_example : pack_attributes ssid ≡ ok (wire_attributes ssid.attributes)
pack_attributes-wire_example = pack_attributes-wire ssid ssid-AllIsAttribute

-- The state is overwritten, on both sides of a journey.
abbrev some_operations : List Operation
some_operations =
    add wsc_version (0x10 ∷ [])
    ∷ journey
    ∷ get wsc_state
    ∷ add wsc_state (2 ∷ [])
    ∷ get wsc_version
    ∷ get 0x1045
    ∷ []

some_replies :
    (perform_all some_operations make).0
    ≡ done ∷ done ∷ value (0x10 ∷ []) ∷ done ∷ value (2 ∷ []) ∷ value [] ∷ []
unfolding add_attribute get_attribute_value pack_attributes parse_attributes make write_attributes
    find insert_or_assign write_attribute write_uint16_be put attribute_sizes copy read_attributes
    read_attribute read_uint16_be fetch
some_replies = refl

perform_all-Refines_example :
    IsValid (perform_all some_operations make).1
    × (((perform_all some_operations make).0, contents (perform_all some_operations make).1)
        ≡ expect_all some_operations empty)
perform_all-Refines_example = perform_all-Refines some_operations (
  (omega arith, (omega arith, tt)),
  (tt, (tt, ((omega arith, (omega arith, tt)), (tt, (tt, tt))))),
)

read_attributes_rounds_example :
    (read_attributes 2 ssid_bytes [] ≡ read_attributes 6 ssid_bytes [])
    × (read_attributes 2 ssid_bytes [] ≢ err out_of_fuel)
read_attributes_rounds_example =
    read_attributes_rounds 2 6 ssid_bytes [] (omega arith) (omega arith)

attribute_sizes_bounds_example :
    (length ssid.attributes ≤ 65536)
    × (attribute_sizes ssid.attributes ≤ 65539)
    × (attribute_sizes ssid.attributes < 2 ^ 64)
attribute_sizes_bounds_example = attribute_sizes_bounds ssid ssid-IsValid

-- A version and a state are the same as the state alone.
add_attributes-eq_iff_example :
    (add_attributes ((wsc_version, 0x10 ∷ []) ∷ (wsc_state, 2 ∷ []) ∷ []) make
      ≡ add_attributes ((wsc_state, 2 ∷ []) ∷ []) make)
    ↔ ((j : ℕ)
        → assigned j ((wsc_version, 0x10 ∷ []) ∷ (wsc_state, 2 ∷ []) ∷ []) none
          ≡ assigned j ((wsc_state, 2 ∷ []) ∷ []) none)
add_attributes-eq_iff_example =
    add_attributes-eq_iff ((wsc_version, 0x10 ∷ []) ∷ (wsc_state, 2 ∷ []) ∷ [])
      ((wsc_state, 2 ∷ []) ∷ []) (omega arith, (omega arith, tt)) (omega arith, tt)

abbrev ssid_tlv : Tlv
ssid_tlv = record { type = wsc_messaging_tlv; value = ssid_bytes }

wsc_message_arrives_example :
    (c : Cmdu) × (u : Tlv) × ((pack (add_tlvs (two_bytes ∷ ssid_tlv ∷ []) (Cmdu.make 9 1 0x80 0))
        >>= λ bytes. parse (bytes ++ (0 ∷ [])))
      ≡ ok c)
    × (find_tlv wsc_messaging_tlv c ≡ some u)
    × (from_raw (get_value u) ≡ ok ssid)
wsc_message_arrives_example =
    wsc_message_arrives ssid ssid_tlv 9 1 0x80 0 (two_bytes ∷ []) [] (0 ∷ []) ssid-IsValid
      to_tlv-ssid (omega arith) (omega arith) (omega arith) (omega arith) (two_bytes-IsValid, tt) tt
      (omega arith, tt) tt (omega arith, tt)

ssid-IsWsc : IsWsc ssid
unfolding add_attribute make insert_or_assign
ssid-IsWsc = set 0x1045 (0x41 ∷ 0x42 ∷ []) (omega arith) (omega arith) empty_wsc refl

hello-IsMessage : IsMessage hello
hello-IsMessage =
    parsed hello_bytes hello_bytes-AllByte (rw pack-hello at (parse-pack hello [] hello-IsValid))

-- A WSC message is added to a message that was received.
abbrev with_ssid : Cmdu
with_ssid = add_tlv ssid_tlv hello

IsMessage-Types_example :
    Cmdu.IsValid with_ssid
    × (bytes : List ℕ) × (pack with_ssid ≡ ok bytes)
    × All IsByte bytes
    × (parse (bytes ++ (0 ∷ [])) ≡ ok (record with_ssid { tlvs = up_to_end with_ssid.tlvs }))
    × IsMessage (record with_ssid { tlvs = up_to_end with_ssid.tlvs })
IsMessage-Types_example =
    IsMessage-Types with_ssid (0 ∷ []) (added (carrier ssid-IsWsc to_tlv-ssid) hello-IsMessage)
      (omega arith, tt)
