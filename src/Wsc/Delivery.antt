-- ===== src/Wsc/Delivery.antt =====
-- A WSC message from one side to the other, in a TLV of a CMDU.
use ieee.Prelude.{
  ℕ, ◌/◌, ◌<◌, ◌≡◌, ◌≢◌, sym, ◌∙◌, arith, IsByte, IsU16, length, All, All-append, List, [], ◌∷◌,
  ◌++◌, append_assoc, some,
}
use ieee.Result.{ok, ◌>>=◌}
use ieee.Tlv
use ieee.Tlv.{Tlv, get_type, get_value}
use ieee.Tlv.Construction.{make-IsValid}
use ieee.TlvTypes
use ieee.Cmdu
use ieee.Cmdu.{Cmdu, find_tlv}
use ieee.Cmdu.Building.{add_tlvs}
use ieee.Cmdu.Ending.{NotEnd, end_tlv}
use ieee.Cmdu.Finding.{find_tlv-eq-some_iff}
use ieee.Serializer.{pack}
use ieee.Parser.{parse}
use ieee.Parser.Delivery.{parse-add_tlvs}
use ieee.Wsc.{WscMessage, to_tlv, from_raw, wsc_messaging_tlv}
use ieee.Wsc.Packing.{Attribute, IsAttribute, IsValid, wire_attribute, wire_attributes}
use ieee.Wsc.Carrying.{to_tlv-make, from_raw-to_tlv}

wire_attribute-AllByte : (a : Attribute) → IsAttribute a → All IsByte (wire_attribute a)
wire_attribute-AllByte a v = (
  upper a.0 v.type_u16,
  (omega arith, (upper (length a.1) (omega arith), (omega arith, v.value_bytes))),
)
  where
    upper : (n : ℕ) → n < 65536 → n / 256 < 256
    upper n h = omega arith

pub wire_attributes-AllByte :
    (m : List Attribute) → All IsAttribute m → All IsByte (wire_attributes m)
wire_attributes-AllByte [] v = tt
wire_attributes-AllByte (a ∷ m) v =
    All-append IsByte (wire_attribute a) (wire_attributes m) (wire_attribute-AllByte a v.0)
      (wire_attributes-AllByte m v.1)

to_tlv-IsValid : (m : WscMessage) (t : Tlv) → IsValid m → to_tlv m ≡ ok t → Tlv.IsValid t
to_tlv-IsValid m t v e =
    make-IsValid wsc_messaging_tlv (wire_attributes m.attributes) t (omega arith)
      (wire_attributes-AllByte m.attributes v.attributes_valid) (sym (to_tlv-make m v) ∙ e)

-- A valid WSC message in the TLV that `ToTlv` returns, sent in a message with header values in
-- range among valid TLVs, none an END_OF_MESSAGE and none before it of the WSC type: the receiver
-- parses the packet, whatever its padding, finds a TLV of the WSC type, and reads the same WSC
-- message from its value.
pub wsc_message_arrives :
    (m : WscMessage) (t : Tlv) (type id flags fragment_id : ℕ) (before after : List Tlv)
    (pad : List ℕ)
    → IsValid m
    → to_tlv m ≡ ok t
    → IsU16 type
    → IsU16 id
    → IsByte flags
    → IsByte fragment_id
    → All Tlv.IsValid before
    → All Tlv.IsValid after
    → All NotEnd before
    → All NotEnd after
    → All (λ u. u.type ≢ wsc_messaging_tlv) before
    → (c : Cmdu) × (u : Tlv) × ((pack
            (add_tlvs (before ++ (t ∷ after)) (Cmdu.make type id flags fragment_id))
          >>= λ bytes. parse (bytes ++ pad))
        ≡ ok c)
      × (find_tlv wsc_messaging_tlv c ≡ some u)
      × (from_raw (get_value u) ≡ ok m)
unfolding get_type
wsc_message_arrives m t type id flags fragment_id before after pad v e ht hi hf hg vb va nb na
      others =
    (
      record {
        type = type;
        id = id;
        flags = flags;
        fragment_id = fragment_id;
        tlvs = (before ++ (t ∷ after)) ++ (end_tlv ∷ []);
      },
      t,
      parse-add_tlvs type id flags fragment_id (before ++ (t ∷ after)) pad ht hi hf hg
          (All-append Tlv.IsValid before (t ∷ after) vb (to_tlv-IsValid m t v e, va))
          (All-append NotEnd before (t ∷ after) nb
            (λ (x : t.type ≡ TlvTypes.end_of_message). omega (arith, carried.0), na)),
      (find_tlv-eq-some_iff wsc_messaging_tlv t _).1 (record {
        before = before;
        after = after ++ (end_tlv ∷ []);
        split = append_assoc before (t ∷ after) (end_tlv ∷ []);
        has_type = carried.0;
        others = others;
      }),
      carried.1,
    )
  where
    carried : (t.type ≡ wsc_messaging_tlv) × (from_raw (get_value t) ≡ ok m)
    carried = from_raw-to_tlv m t v e
