-- ===== src/Parser/Refinement.antt =====
-- The methods of a message and its journeys through `Pack` and `Parse`, against a log.
use ieee.Prelude.{ℕ, ◌≡◌, refl, ap, All, IsU16, IsByte, List, [], ◌∷◌, ◌++◌, Option, none, some}
use ieee.Result.{Result, Error, ok, err, ◌>>=◌}
use ieee.Tlv
use ieee.Tlv.{Tlv}
use ieee.Cmdu
use ieee.Cmdu.{Cmdu, add_tlv, find_tlv}
use ieee.Cmdu.Adding.{extend, All-push_back}
use ieee.Cmdu.Ending.{not-ends_message}
use ieee.Cmdu.Log.{
  Log, IsLog, holding, written, first_of, delivered, add_tlv-holding, extend-IsLog,
  find_tlv-first_of, up_to_end-written, delivered-IsLog,
}
use ieee.Serializer.{pack}
use ieee.Parser.{parse}
use ieee.Parser.RoundTrip.{parse-pack}
use ieee.Parser.Delivery.{make-IsValid}

-- A call on a message, or its journey: it is packed, the network adds padding, and what arrives
-- is parsed into the message that takes its place.
pub data Operation : Type 0 where
  add : Tlv → Operation
  find : ℕ → Operation
  journey : List ℕ → Operation

-- What the caller sees.
pub data Reply : Type 0 where
  done : Reply
  thrown : Error → Reply
  found : Option Tlv → Reply

-- A journey that throws leaves the message as it was.
abbrev replied : Cmdu → Result Cmdu → Reply × Cmdu
replied c (ok c') = (done, c')
replied c (err e) = (thrown e, c)

abbrev pub run : Operation → Cmdu → Reply × Cmdu
run (add t) c = (done, add_tlv t c)
run (find type) c = (found (find_tlv type c), c)
run (journey pad) c = replied c (pack c >>= λ bytes. parse (bytes ++ pad))

abbrev pub run_all : List Operation → Cmdu → List Reply × Cmdu
run_all [] c = ([], c)
run_all (o ∷ os) c =
    let (reply, c') = run o c in let (replies, c'') = run_all os c' in (reply ∷ replies, c'')

-- The same calls on the log, which knows no bytes, and on which every call succeeds.
abbrev pub expect : Operation → Log → Reply × Log
expect (add t) l = (done, extend t l)
expect (find type) l = (found (first_of type l), l)
expect (journey pad) l = (done, delivered l)

abbrev pub expect_all : List Operation → Log → List Reply × Log
expect_all [] l = ([], l)
expect_all (o ∷ os) l =
    let (reply, l') = expect o l in let (replies, l'') = expect_all os l' in (reply ∷ replies, l'')

-- TLVs that their constructor made.
abbrev pub IsOperation : Operation → Type 0
IsOperation (add t) = Tlv.IsValid t
IsOperation _ = Unit

expect-IsLog : (o : Operation) (l : Log) → IsOperation o → IsLog l → IsLog (expect o l).1
expect-IsLog (add t) l v h = extend-IsLog t l v h
expect-IsLog (find type) l v h = h
expect-IsLog (journey pad) l v h = delivered-IsLog l h

written-IsValid : (l : Log) → IsLog l → All Tlv.IsValid (written l)
written-IsValid (ts, none) h = h.entries_valid
written-IsValid (ts, some e) h = All-push_back Tlv.IsValid ts e h.entries_valid h.closing.1

module _ (c : Cmdu) (valid : Cmdu.IsValid c) where
  holding-IsValid : (l : Log) → IsLog l → Cmdu.IsValid (holding c l)
  holding-IsValid l h = record {
    type_u16 = valid.type_u16;
    id_u16 = valid.id_u16;
    flags_byte = valid.flags_byte;
    fragment_byte = valid.fragment_byte;
    tlvs_valid = written-IsValid l h;
  }

  -- One call on the message of a log replies as on the log, and leaves the message of the new log.
  run-expect :
      (o : Operation) (l : Log)
      → IsOperation o
      → IsLog l
      → run o (holding c l) ≡ ((expect o l).0, holding c (expect o l).1)
  run-expect (add t) l v h = ap (λ (m : Cmdu). (done, m)) (add_tlv-holding c t l h)
  run-expect (find type) l v h =
      ap (λ (t : Option Tlv). (found t, holding c l)) (find_tlv-first_of type c l)
  run-expect (journey pad) l v h =
      rw (parse-pack (holding c l) pad (holding-IsValid l h))
        (ap (λ (ts : List Tlv). (done, record c { tlvs = ts })) (up_to_end-written l h))

  run_all-expect_all :
      (os : List Operation) (l : Log)
      → All IsOperation os
      → IsLog l
      → run_all os (holding c l) ≡ ((expect_all os l).0, holding c (expect_all os l).1)
  run_all-expect_all [] l v h = refl
  run_all-expect_all (o ∷ os) l v h = rw (run-expect o l v.0 h) (
      ap (λ (x : List Reply × Cmdu). ((expect o l).0 ∷ x.0, x.1))
        (run_all-expect_all os (expect o l).1 v.1 (expect-IsLog o l v.0 h)))

-- Any sequence of `AddTlv`, `FindTlv` and journeys through `Pack`, any padding and `Parse`, with
-- header values in range and TLVs that are valid, replies on a new message as a log does. No
-- call throws, and the message has the header that it was made with and the TLVs of the log, which
-- knows no bytes: it keeps the TLVs in the order of the calls and apart from them the
-- END_OF_MESSAGE that closed it, finds the first entry of a type, and loses on a journey what is
-- behind its first END_OF_MESSAGE, or is closed by an empty one.
pub run_all-Refines :
    (os : List Operation) (type id flags fragment_id : ℕ)
    → IsU16 type
    → IsU16 id
    → IsByte flags
    → IsByte fragment_id
    → All IsOperation os
    → let (replies, l) = expect_all os ([], none) in
      run_all os (Cmdu.make type id flags fragment_id) ≡ (
        replies,
        record { type = type; id = id; flags = flags; fragment_id = fragment_id; tlvs = written l },
      )
unfolding Cmdu.make
run_all-Refines os type id flags fragment_id a b c d v =
    run_all-expect_all (Cmdu.make type id flags fragment_id)
      (make-IsValid type id flags fragment_id a b c d) os ([], none) v
      (record { entries_valid = tt; closing = not-ends_message [] tt })
