-- ===== src/Wsc/Carrying.antt =====
-- `ToTlv` and the constructor from raw data: a message in a TLV and out of it again.
use ieee.Prelude.{
  ℕ, ◌≤◌, ◌<◌, ◌≡◌, ◌↔◌, ◌⊎◌, inl, inr, refl, sym, ◌∙◌, arith, All, List, [], ◌∷◌, ◌++◌,
  append_assoc, append-nil,
}
use ieee.Result.{ok, err, length_error, ◌>>=◌}
use ieee.Tlv
use ieee.Tlv.Construction.{make-eq-ok_iff, make-cases}
use ieee.Tlv.{Tlv, get_type, get_value}
use ieee.Wsc.{
  WscMessage, pack_attributes, parse_attributes, from_raw, to_tlv, wsc_messaging_tlv,
  attribute_sizes,
}
use ieee.Wsc.Entries.{Map, IsSorted, Above, insert_or_assign_last}
use ieee.Wsc.Packing.{IsValid, wire_attributes, pack_attributes-wire, length-wire_attributes}
use ieee.Wsc.Parsing.{insert_all, parse_attributes_read}

Above-append : (i k : ℕ) (v : List ℕ) (m l : Map (List ℕ)) → Above i (m ++ ((k, v) ∷ l)) → i < k
Above-append i k v [] l a = a.0
Above-append i k v ((j, w) ∷ m) l a = Above-append i k v m l a.1

IsSorted-append :
    (k : ℕ) (v : List ℕ) (m l : Map (List ℕ)) → IsSorted (m ++ ((k, v) ∷ l)) → All (λ e. e.0 < k) m
IsSorted-append k v [] l s = tt
IsSorted-append k v ((j, w) ∷ m) l s = (Above-append j k v m l s.0, IsSorted-append k v m l s.1)

-- Assigning entries with increasing keys, all above those that are there, appends them.
pub insert_all-append : (l m : Map (List ℕ)) → IsSorted (m ++ l) → insert_all l m ≡ m ++ l
insert_all-append [] m s = sym (append-nil m)
insert_all-append ((k, v) ∷ l) m s = rw (insert_or_assign_last k v m (IsSorted-append k v m l s)) (
    insert_all-append l (m ++ ((k, v) ∷ [])) (rw (append_assoc m ((k, v) ∷ []) l) s)
    ∙ append_assoc m ((k, v) ∷ []) l)

-- A valid message is read back from what `PackAttributes` returns.
pub parse_attributes-pack_attributes :
    (m : WscMessage) → IsValid m → (pack_attributes m >>= parse_attributes) ≡ ok m
parse_attributes-pack_attributes m v = rw (pack_attributes-wire m v.attributes_valid) (
    parse_attributes_read (wire_attributes m.attributes) m (record {
      attributes = m.attributes;
      layout = refl;
      in_range = v.attributes_valid;
      assigned = sym (insert_all-append m.attributes [] v.sorted);
    }))

pub to_tlv-make :
    (m : WscMessage)
    → IsValid m
    → to_tlv m ≡ Tlv.make wsc_messaging_tlv (wire_attributes m.attributes)
unfolding to_tlv
to_tlv-make m v = rw (pack_attributes-wire m v.attributes_valid)

-- `ToTlv` of a valid message returns exactly if four bytes and the value of each attribute make
-- at most 65535 bytes.
pub to_tlv-fits :
    (m : WscMessage)
    → IsValid m
    → ((t : Tlv) × (to_tlv m ≡ ok t)) ↔ (attribute_sizes m.attributes ≤ 65535)
unfolding get_type get_value
to_tlv-fits m v = (
  λ (t, e).
      let (short, _, _) = (make-eq-ok_iff _ _ t).0 (sym (to_tlv-make m v) ∙ e) in
      omega (arith, length-wire_attributes m.attributes),
  λ h. (
    carrier,
    to_tlv-make m v
        ∙ (make-eq-ok_iff wsc_messaging_tlv (wire_attributes m.attributes) carrier).1
            (omega (arith, length-wire_attributes m.attributes), refl, refl),
  ),
)
  where
    carrier : Tlv
    carrier = record { type = wsc_messaging_tlv; value = wire_attributes m.attributes }

-- A TLV that `ToTlv` returns for a valid message has the WSC type, and the constructor from raw
-- data makes the message from its value.
pub from_raw-to_tlv :
    (m : WscMessage) (t : Tlv)
    → IsValid m
    → to_tlv m ≡ ok t
    → (get_type t ≡ wsc_messaging_tlv) × (from_raw (get_value t) ≡ ok m)
unfolding from_raw
from_raw-to_tlv m t v e =
    let (short, type, value) = (make-eq-ok_iff _ _ t).0 (sym (to_tlv-make m v) ∙ e) in
    (
      type,
      rw value (
          rw (pack_attributes-wire m v.attributes_valid) at (parse_attributes-pack_attributes m v)),
    )

-- A valid WSC message, if four bytes and the value of each attribute make at most 65535 bytes, is
-- carried by a TLV of the WSC type, from whose value the constructor from raw data makes the message
-- again. Otherwise `ToTlv` throws a length_error.
pub to_tlv-cases :
    (m : WscMessage)
    → IsValid m
    → ((attribute_sizes m.attributes ≤ 65535)
        × (t : Tlv) × (to_tlv m ≡ ok t)
        × (get_type t ≡ wsc_messaging_tlv)
        × (from_raw (get_value t) ≡ ok m))
      ⊎ ((65535 < attribute_sizes m.attributes)
          × (to_tlv m
              ≡ err (length_error "TLV value length exceeds maximum 16-bit limit (65535 bytes).")))
to_tlv-cases m v = elim (make-cases wsc_messaging_tlv (wire_attributes m.attributes)) [
  | inl (short, t, made, _, _, _, _) ↦
      let built : to_tlv m ≡ ok t = to_tlv-make m v ∙ made in
      let (type, message) = from_raw-to_tlv m t v built in
      inl (omega (arith, length-wire_attributes m.attributes), t, built, type, message)
  | inr (long, refused) ↦
      inr (omega (arith, length-wire_attributes m.attributes), to_tlv-make m v ∙ refused)
]
