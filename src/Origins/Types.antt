-- ===== src/Origins/Types.antt =====
-- The ranges of the C++ types hold of every value of the program.
use ieee.Prelude.{
  ℕ, ◌≡◌, sym, subst, ◌∙◌, arith, All, All-append, All-append_right, IsByte, List, ◌∷◌, ◌++◌,
}
use ieee.Result.{ok}
use ieee.Tlv
use ieee.Tlv.{Tlv, get_value}
use ieee.Tlv.Construction
use ieee.Cmdu
use ieee.Cmdu.{Cmdu}
use ieee.Cmdu.Adding.{add_tlv-IsValid}
use ieee.Cmdu.Ending.{up_to_end}
use ieee.Cmdu.Finding.{find_tlv-eq-some_iff}
use ieee.Serializer.{pack}
use ieee.Serializer.Wire.{wire, pack-wire, wire-IsByte}
use ieee.Parser.{parse}
use ieee.Parser.Frame.{parse-eq-ok_iff}
use ieee.Parser.RoundTrip.{parse-pack}
use ieee.Parser.Delivery
use ieee.Wsc.{WscMessage, from_raw, wsc_messaging_tlv}
use ieee.Wsc.Attributes.{add_attribute-IsValid}
use ieee.Wsc.Packing
use ieee.Wsc.Packing.{wire_attributes}
use ieee.Wsc.Carrying.{to_tlv-make}
use ieee.Wsc.Parsing.{parse_attributes-IsValid}
use ieee.Wsc.Delivery.{wire_attributes-AllByte}
use ieee.Origins.{
  IsMessage, IsTlv, IsWsc, new, added, parsed, make, found, carrier, empty, set, content,
}

mutual
  unfolding from_raw get_value

  IsMessage-IsValid : {c : Cmdu} → IsMessage c → Cmdu.IsValid c
  IsMessage-IsValid (new type id flags fragment_id a b d e) =
      Delivery.make-IsValid type id flags fragment_id a b d e
  IsMessage-IsValid (added {t} {c} u n) =
      add_tlv-IsValid t c (IsTlv-IsValid u) (IsMessage-IsValid n)
  IsMessage-IsValid (parsed buffer {c} b e) = ((parse-eq-ok_iff buffer c b).0 e).valid

  IsTlv-IsValid : {t : Tlv} → IsTlv t → Tlv.IsValid t
  IsTlv-IsValid (make type value {t} a b e) = Construction.make-IsValid type value t a b e
  IsTlv-IsValid (found type {c} {t} n e) =
      let first = (find_tlv-eq-some_iff type t c).0 e in
      (All-append_right Tlv.IsValid first.before (t ∷ first.after)
        (subst (All Tlv.IsValid) first.split (IsMessage-IsValid n).tlvs_valid)).0
  IsTlv-IsValid (carrier {m} {t} n e) =
      let v : Packing.IsValid m = IsWsc-IsValid n in
      Construction.make-IsValid wsc_messaging_tlv (wire_attributes m.attributes) t (omega arith)
        (wire_attributes-AllByte m.attributes v.attributes_valid) (sym (to_tlv-make m v) ∙ e)

  IsWsc-IsValid : {m : WscMessage} → IsWsc m → Packing.IsValid m
  IsWsc-IsValid empty = Packing.make-IsValid
  IsWsc-IsValid (set type value {m} {m'} a b n e) =
      add_attribute-IsValid type value m m' a b (IsWsc-IsValid n) e
  IsWsc-IsValid (content {t} {m} n e) =
      parse_attributes-IsValid t.value m (IsTlv-IsValid n).value_bytes e

-- Every message that the methods of messages, TLVs and WSC messages can make of words and bytes
-- has fields in the ranges of their C++ types. `Pack` returns bytes for it, behind which any padding
-- may stand, and `Parse` reads these as the message up to its first END_OF_MESSAGE, with one added
-- if there was none.
pub IsMessage-Types :
    (c : Cmdu) (pad : List ℕ)
    → IsMessage c
    → All IsByte pad
    → Cmdu.IsValid c
      × (bytes : List ℕ) × (pack c ≡ ok bytes)
      × All IsByte bytes
      × (parse (bytes ++ pad) ≡ ok (record c { tlvs = up_to_end c.tlvs }))
      × IsMessage (record c { tlvs = up_to_end c.tlvs })
IsMessage-Types c pad n b =
    let v : Cmdu.IsValid c = IsMessage-IsValid n in
    let read : parse (wire c ++ pad) ≡ ok (record c { tlvs = up_to_end c.tlvs }) =
      rw (pack-wire c v) at (parse-pack c pad v) in
    (
      v,
      wire c,
      pack-wire c v,
      wire-IsByte c v,
      read,
      parsed (wire c ++ pad) (All-append IsByte (wire c) pad (wire-IsByte c v) b) read,
    )
