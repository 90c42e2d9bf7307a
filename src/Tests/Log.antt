-- ===== src/Tests/Log.antt =====
-- A message that is built, travels, and is built on.
use ieee.Prelude.{◌≡◌, refl, arith, List, [], ◌∷◌, none, some}
use ieee.Tlv.{Tlv}
use ieee.Cmdu
use ieee.Cmdu.{Cmdu}
use ieee.Cmdu.Ending.{end_tlv}
use ieee.Parser.Refinement.{
  Operation, add, find, journey, done, found, expect_all, run_all, run_all-Refines,
}
use ieee.Tests.Messages.{two_bytes, two_bytes-IsValid, end_tlv-IsValid}

abbrev one_byte : Tlv
one_byte = record { type = 11; value = 0x33 ∷ [] }

-- The second END_OF_MESSAGE hides the first one, which the journey loses.
abbrev calls : List Operation
calls =
    add two_bytes
    ∷ find 0
    ∷ journey (0xAA ∷ [])
    ∷ add one_byte
    ∷ add end_tlv
    ∷ add two_bytes
    ∷ find 11
    ∷ journey []
    ∷ find 0
    ∷ []

run_all-Refines_example : run_all calls (Cmdu.make 0 0x1234 0x80 0) ≡ (
  (expect_all calls ([], none)).0,
  record {
    type = 0;
    id = 0x1234;
    flags = 0x80;
    fragment_id = 0;
    tlvs = two_bytes ∷ one_byte ∷ end_tlv ∷ [];
  },
)
run_all-Refines_example =
    run_all-Refines calls 0 0x1234 0x80 0 (omega arith) (omega arith) (omega arith) (omega arith) (
      two_bytes-IsValid,
      (tt, (tt, (omega arith, (end_tlv-IsValid, (two_bytes-IsValid, (tt, (tt, (tt, tt)))))))),
    )

replies :
    (expect_all calls ([], none)).0
    ≡ done
      ∷ found none
      ∷ done
      ∷ done
      ∷ done
      ∷ done
      ∷ found (some one_byte)
      ∷ done
      ∷ found (some end_tlv)
      ∷ []
replies = refl
