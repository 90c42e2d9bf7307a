-- ===== src/Wsc/Normal.antt =====
-- A WSC message that came in a TLV and goes on in another one.
use ieee.Prelude.{ℕ, ◌+◌, ◌≤◌, ◌≡◌, ◌↔◌, refl, sym, ap, ◌∙◌, arith, length, All, List, [], ◌∷◌}
use ieee.Result.{ok}
use ieee.Tlv
use ieee.Tlv.{Tlv, get_type, get_value}
use ieee.Tlv.Construction.{make-eq-ok_iff}
use ieee.Wsc.{WscMessage, attribute_sizes, parse_attributes, from_raw, to_tlv, wsc_messaging_tlv}
use ieee.Wsc.Entries.{Map, IsSorted, insert_or_assign}
use ieee.Wsc.Packing.{Attribute, IsAttribute, IsValid, wire_attributes, length-wire_attributes}
use ieee.Wsc.Parsing.{
  insert_all, IsRead, parse_attributes-eq-ok_iff, parse_attributes_read, parse_attributes-IsValid,
}
use ieee.Wsc.Carrying.{insert_all-append, to_tlv-fits, from_raw-to_tlv, to_tlv-make}

attribute_sizes-insert_or_assign :
    (k : ℕ) (v : List ℕ) (m : Map (List ℕ))
    → attribute_sizes (insert_or_assign k v m) ≤ 4 + length v + attribute_sizes m
unfolding attribute_sizes insert_or_assign
attribute_sizes-insert_or_assign k v [] = omega arith
attribute_sizes-insert_or_assign k v ((j, w) ∷ m) =
    ground (arith, attribute_sizes-insert_or_assign k v m)

-- Assigning attributes makes a map of no more bytes than they have.
attribute_sizes-insert_all :
    (l : List Attribute) (m : Map (List ℕ))
    → attribute_sizes (insert_all l m) ≤ attribute_sizes l + attribute_sizes m
unfolding attribute_sizes
attribute_sizes-insert_all [] m = omega arith
attribute_sizes-insert_all ((k, v) ∷ l) m = omega (
  arith,
  attribute_sizes-insert_all l (insert_or_assign k v m),
  attribute_sizes-insert_or_assign k v m,
)

-- The bytes of attributes in the order of their types, each type once.
pub record IsNormal (bytes : List ℕ) : Type 0 where
  pub attributes : List Attribute
  pub sorted : IsSorted attributes
  pub in_range : All IsAttribute attributes
  pub layout : bytes ≡ wire_attributes attributes

read-le :
    (raw : List ℕ) (m : WscMessage)
    → IsRead raw [] m.attributes
    → attribute_sizes m.attributes ≤ length raw
read-le raw m r = rw r.assigned (
    omega (
      arith,
      attribute_sizes-insert_all r.attributes [],
      none,
      length-wire_attributes r.attributes,
      ap length r.layout,
    ))
  where
    none : attribute_sizes [] ≡ 0
    none = unfold attribute_sizes in refl

-- What the map is packed to is the bytes it was read from exactly when these are normal.
read-eq_iff :
    (raw : List ℕ) (m : WscMessage)
    → IsRead raw [] m.attributes
    → IsValid m
    → parse_attributes raw ≡ ok m
    → (wire_attributes m.attributes ≡ raw) ↔ IsNormal raw
read-eq_iff raw m r v e = (
  λ same. record {
    attributes = m.attributes;
    sorted = v.sorted;
    in_range = v.attributes_valid;
    layout = sym same;
  },
  λ n.
      let read : parse_attributes raw ≡ ok (record { attributes = n.attributes }) =
        parse_attributes_read raw _ (record {
          attributes = n.attributes;
          layout = n.layout;
          in_range = n.in_range;
          assigned = sym (insert_all-append n.attributes [] n.sorted);
        }) in
      let same : m.attributes ≡ n.attributes = cc in ap wire_attributes same ∙ sym n.layout,
)

-- A WSC message that the constructor from raw data made of the value of a valid TLV fits into a TLV
-- again: `ToTlv` returns one of the WSC type, whose value is not longer, from which the
-- constructor makes the same message, and which has the same bytes exactly when these were
-- attributes in the order of their types, each type once.
pub to_tlv-from_raw :
    (t : Tlv) (m : WscMessage)
    → Tlv.IsValid t
    → from_raw (get_value t) ≡ ok m
    → (t' : Tlv) × (to_tlv m ≡ ok t')
      × (get_type t' ≡ wsc_messaging_tlv)
      × (from_raw (get_value t') ≡ ok m)
      × (length (get_value t') ≤ length (get_value t))
      × ((get_value t' ≡ get_value t) ↔ IsNormal (get_value t))
unfolding from_raw get_value
to_tlv-from_raw t m v e =
    let read : IsRead t.value [] m.attributes =
      (parse_attributes-eq-ok_iff t.value m v.value_bytes).0 e in
    let valid : IsValid m = parse_attributes-IsValid t.value m v.value_bytes e in
    let small = read-le t.value m read in
    let fits : attribute_sizes m.attributes ≤ 65535 = let bound = v.fits in omega arith in
    let (t', made) = (to_tlv-fits m valid).1 fits in
    let (type, message) = from_raw-to_tlv m t' valid made in
    let (_, _, value) = (make-eq-ok_iff _ _ t').0 (sym (to_tlv-make m valid) ∙ made) in
    (
      t',
      made,
      type,
      message,
      omega (arith, small, length-wire_attributes m.attributes, ap length value),
      rw value (read-eq_iff t.value m read valid e),
    )
