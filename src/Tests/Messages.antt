-- ===== src/Tests/Messages.antt =====
-- The test data: a message, its bytes, and the facts about them.
use ieee.Prelude.{ℕ, ◌≡◌, refl, arith, All, IsByte, List, [], ◌∷◌, inl, inr}
use ieee.Result.{ok}
use ieee.Tlv
use ieee.Tlv.{Tlv}
use ieee.Cmdu
use ieee.Cmdu.{Cmdu}
use ieee.Cmdu.Ending.{EndsOnce, end_tlv}
use ieee.Serializer.{pack}
use ieee.Serializer.Wire.{pack-wire}

abbrev pub two_bytes : Tlv
two_bytes = record { type = 3; value = 0x11 ∷ 0x22 ∷ [] }

abbrev pub hello : Cmdu
hello = record {
  type = 0;
  id = 0x1234;
  flags = 0x80;
  fragment_id = 0;
  tlvs = two_bytes ∷ end_tlv ∷ [];
}

abbrev pub hello_bytes : List ℕ
hello_bytes = 0 ∷ 0 ∷ 0 ∷ 0 ∷ 0x12 ∷ 0x34 ∷ 0 ∷ 0x80 ∷ 3 ∷ 0 ∷ 2 ∷ 0x11 ∷ 0x22 ∷ 0 ∷ 0 ∷ 0 ∷ []

pub two_bytes-IsValid : Tlv.IsValid two_bytes
two_bytes-IsValid = record {
  type_byte = omega arith;
  value_bytes = ground arith;
  fits = omega arith;
}

pub end_tlv-IsValid : Tlv.IsValid end_tlv
end_tlv-IsValid = omega arith

pub hello-IsValid : Cmdu.IsValid hello
hello-IsValid = record {
  type_u16 = omega arith;
  id_u16 = omega arith;
  flags_byte = omega arith;
  fragment_byte = omega arith;
  tlvs_valid = (two_bytes-IsValid, (end_tlv-IsValid, tt));
}

pub hello-EndsOnce : EndsOnce hello.tlvs
hello-EndsOnce = inr (omega arith, inl (refl, refl))

pub hello_bytes-AllByte : All IsByte hello_bytes
hello_bytes-AllByte = ground arith

pub pack-hello : pack hello ≡ ok hello_bytes
unfolding Cmdu.ends_message Tlv.get_type
pack-hello = pack-wire hello hello-IsValid
