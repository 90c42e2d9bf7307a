-- ===== src/Tests/Wire.antt =====
-- Inputs for the theorems on TLVs, messages, the serializer, the parser and LLDP.
use ieee.Prelude.{ℕ, ◌≡◌, ◌≢◌, ◌↔◌, refl, arith, some, List, [], ◌∷◌, ◌++◌}
use ieee.Result.{ok, ◌>>=◌}
use ieee.Tlv
use ieee.Tlv.{Tlv}
use ieee.Prelude.{All, All-take, IsByte, String, ◌⊎◌, ◌≤◌, ◌<◌, take, length}
use ieee.Result.{Error, runtime_error, length_error}
use ieee.Tlv.Construction.{make-cases}
use ieee.Cmdu
use ieee.Cmdu.{Cmdu, add_tlv, find_tlv}
use ieee.Cmdu.Adding.{add_tlv-extend, body, terminator, extend}
use ieee.Cmdu.Building.{add_tlvs}
use ieee.Cmdu.Ending.{end_tlv}
use ieee.Cmdu.Finding.{IsFirst, find_tlv-eq-some_iff}
use ieee.Serializer.{pack, total_size}
use ieee.Serializer.Bounds.{total_size_bounds}
use ieee.Prelude.{◌^◌}
use ieee.Serializer.Wire.{pack-wire, wire}
use ieee.Parser.{parse}
use ieee.Parser.Frame.{IsFrame, parse-eq-ok_iff}
use ieee.Parser.Errors.{IsMalformed, cut_header, parse-eq-err_iff}
use ieee.Parser.RoundTrip.{parse-pack, pack-parse, parse_truncated}
use ieee.Parser.Injective.{closed, pack-eq_iff}
use ieee.Parser.Delivery.{parse-add_tlvs, parse-add_tlv_second_end}
use ieee.Lldp
use ieee.Lldp.{LldpPdu, get_packed_size}
use ieee.Lldp.Size.{IsCarried, add_tlvs as add_lldp_tlvs}
use ieee.Lldp.Refusals.{Refused, add_tlvs-make_cases}
use ieee.Result.{err, out_of_fuel}
use ieee.Parser.{read_tlvs}
use ieee.Parser.Termination.{read_tlvs_rounds}
use ieee.Tests.Messages.{
  two_bytes, hello, hello_bytes, two_bytes-IsValid, end_tlv-IsValid, hello-IsValid, hello-EndsOnce,
  hello_bytes-AllByte, pack-hello,
}

parse-pack_example : (pack hello >>= λ bytes. parse (bytes ++ (0xAA ∷ []))) ≡ ok hello
parse-pack_example = parse-pack hello (0xAA ∷ []) hello-IsValid

parse-eq-ok_iff_example : (parse hello_bytes ≡ ok hello) ↔ IsFrame hello_bytes hello
parse-eq-ok_iff_example = parse-eq-ok_iff hello_bytes hello hello_bytes-AllByte

-- The second TLV lacks its last header byte.
parse-eq-err_iff_example :
    (parse (take 15 hello_bytes)
      ≡ err (runtime_error "Incomplete TLV header found at end of buffer."))
    ↔ ((what : String) × (runtime_error "Incomplete TLV header found at end of buffer."
          ≡ runtime_error what)
        × IsMalformed (take 15 hello_bytes) what)
parse-eq-err_iff_example =
    parse-eq-err_iff (take 15 hello_bytes)
      (runtime_error "Incomplete TLV header found at end of buffer.")
      (All-take IsByte 15 hello_bytes hello_bytes-AllByte)

-- That this buffer is refused with this exception follows.
cut_hello :
    parse (take 15 hello_bytes)
    ≡ err (runtime_error "Incomplete TLV header found at end of buffer.")
cut_hello = parse-eq-err_iff_example.1 (
  "Incomplete TLV header found at end of buffer.",
  refl,
  cut_header (0 ∷ 0 ∷ [])
      (record {
        header = take 8 hello_bytes;
        ts = two_bytes ∷ [];
        layout = refl;
        size = refl;
        valid = (two_bytes-IsValid, tt);
        not_end = (omega arith, tt);
      })
      (omega arith) (omega arith),
)

pack-wire_example : pack hello ≡ ok (wire hello)
pack-wire_example = pack-wire hello hello-IsValid

parse-add_tlvs_example :
    (pack (add_tlvs (two_bytes ∷ []) (Cmdu.make 0 0x1234 0x80 0)) >>= λ bytes.
    parse (bytes ++ (0 ∷ [])))
    ≡ ok hello
parse-add_tlvs_example =
    parse-add_tlvs 0 0x1234 0x80 0 (two_bytes ∷ []) (0 ∷ []) (omega arith) (omega arith)
      (omega arith) (omega arith) (two_bytes-IsValid, tt) (omega arith, tt)

parse_truncated_example : parse (0 ∷ 0 ∷ 0 ∷ 0 ∷ 0x12 ∷ []) ≢ ok hello
parse_truncated_example =
    parse_truncated hello hello (0 ∷ 0 ∷ 0 ∷ 0 ∷ 0x12 ∷ [])
      (0 ∷ 0x80 ∷ 3 ∷ 0 ∷ 2 ∷ 0x11 ∷ 0x22 ∷ 0 ∷ 0 ∷ 0 ∷ []) 0x34 hello-IsValid hello-EndsOnce
      pack-hello

-- The message before its END_OF_MESSAGE is added.
abbrev open_hello : Cmdu
open_hello = record hello { tlvs = two_bytes ∷ [] }

open_hello-IsValid : Cmdu.IsValid open_hello
open_hello-IsValid = record {
  type_u16 = omega arith;
  id_u16 = omega arith;
  flags_byte = omega arith;
  fragment_byte = omega arith;
  tlvs_valid = (two_bytes-IsValid, tt);
}

pack-eq_iff_example : (pack open_hello ≡ pack hello) ↔ (closed open_hello ≡ closed hello)
pack-eq_iff_example = pack-eq_iff open_hello hello open_hello-IsValid hello-IsValid

pack-open_hello : pack open_hello ≡ pack hello
unfolding Cmdu.ends_message Tlv.get_type
pack-open_hello = pack-eq_iff_example.1 refl

parse-hello : parse hello_bytes ≡ ok hello
parse-hello = rw pack-hello at (parse-pack hello [] hello-IsValid)

pack-parse_example :
    (bytes : List ℕ) × (pad : List ℕ) × (pack hello ≡ ok (0 ∷ 0 ∷ bytes))
    × ((0 ∷ 0 ∷ 0x12 ∷ 0x34 ∷ 0 ∷ 0x80 ∷ 3 ∷ 0 ∷ 2 ∷ 0x11 ∷ 0x22 ∷ 0 ∷ 0 ∷ 0 ∷ []) ≡ bytes ++ pad)
pack-parse_example =
    pack-parse 0 0 (0 ∷ 0 ∷ 0x12 ∷ 0x34 ∷ 0 ∷ 0x80 ∷ 3 ∷ 0 ∷ 2 ∷ 0x11 ∷ 0x22 ∷ 0 ∷ 0 ∷ 0 ∷ []) hello
      hello_bytes-AllByte parse-hello

add_tlv-extend_example :
    ((body (add_tlv two_bytes hello).tlvs, terminator (add_tlv two_bytes hello).tlvs)
      ≡ extend two_bytes (body hello.tlvs, terminator hello.tlvs))
    × (add_tlv two_bytes hello ≡ record hello { tlvs = (add_tlv two_bytes hello).tlvs })
add_tlv-extend_example = add_tlv-extend two_bytes hello

find_tlv-eq-some_iff_example : (find_tlv 3 hello ≡ some two_bytes) ↔ IsFirst 3 two_bytes hello.tlvs
find_tlv-eq-some_iff_example = find_tlv-eq-some_iff 3 two_bytes hello

parse-add_tlv_second_end_example :
    ((add_tlv end_tlv hello).tlvs ≡ two_bytes ∷ end_tlv ∷ end_tlv ∷ [])
    × ((pack (add_tlv end_tlv hello) >>= λ bytes. parse (bytes ++ [])) ≡ ok hello)
parse-add_tlv_second_end_example =
    parse-add_tlv_second_end hello (two_bytes ∷ []) end_tlv end_tlv [] hello-IsValid end_tlv-IsValid
      refl (omega arith, tt) refl refl

-- A TLV of type 200 behind one that is carried.
abbrev too_high : Tlv
too_high = record { type = 200; value = [] }

too_high-IsValid : Tlv.IsValid too_high
too_high-IsValid = omega arith

add_tlvs-make_cases_example :
    (All IsCarried (two_bytes ∷ too_high ∷ [])
      × (add_lldp_tlvs (two_bytes ∷ too_high ∷ []) Lldp.make
          ≡ ok (record { tlvs = two_bytes ∷ too_high ∷ [] }))
      × (get_packed_size (record { tlvs = two_bytes ∷ too_high ∷ [] }) ≡ ok 8))
    ⊎ ((e : Error) × Refused (two_bytes ∷ too_high ∷ []) e
        × (add_lldp_tlvs (two_bytes ∷ too_high ∷ []) Lldp.make ≡ err e))
add_tlvs-make_cases_example =
    add_tlvs-make_cases (two_bytes ∷ too_high ∷ []) (two_bytes-IsValid, (too_high-IsValid, tt))

make-cases_example :
    ((length {A = ℕ} (0x11 ∷ 0x22 ∷ []) ≤ 65535)
      × (t : Tlv) × (Tlv.make 3 (0x11 ∷ 0x22 ∷ []) ≡ ok t)
      × (Tlv.get_type t ≡ 3)
      × (Tlv.get_value t ≡ 0x11 ∷ 0x22 ∷ [])
      × (Tlv.get_length t ≡ 2)
      × (Tlv.get_packet_size t ≡ 5))
    ⊎ ((65535 < length {A = ℕ} (0x11 ∷ 0x22 ∷ []))
        × (Tlv.make 3 (0x11 ∷ 0x22 ∷ [])
            ≡ err (length_error "TLV value length exceeds maximum 16-bit limit (65535 bytes).")))
make-cases_example = make-cases 3 (0x11 ∷ 0x22 ∷ [])

read_tlvs_rounds_example :
    (read_tlvs 6 hello_bytes hello ≡ read_tlvs 16 hello_bytes hello)
    × (read_tlvs 6 hello_bytes hello ≢ err out_of_fuel)
read_tlvs_rounds_example = read_tlvs_rounds 6 16 hello_bytes hello (omega arith) (omega arith)

total_size_bounds_example : (total_size hello ≤ 131087) × (total_size hello < 2 ^ 64)
total_size_bounds_example = total_size_bounds hello hello-IsValid (omega arith)
