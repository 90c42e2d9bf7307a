-- ===== src/Wsc/Packing.antt =====
-- `PackAttributes`: the writes through `ptr` produce the attributes one after the other.
use ieee.Prelude.{
  ℕ, ◌≤◌, ◌≡◌, refl, sym, subst, ◌∙◌, arith, u16, length, length-append, replicate,
  length-replicate, All, IsByte, IsU16, List, [], ◌∷◌, ◌++◌,
}
use ieee.Result.{ok, ◌>>=◌}
use ieee.Bytes.{copy}
use ieee.Bytes.Writes.{Writes, copy-Writes, Writes-nil, Writes-append, Writes-fills}
use ieee.Serializer.{write_uint16}
use ieee.Serializer.Wire.{big_endian, write_uint16-Writes}
use ieee.Wsc.{
  WscMessage, make, write_uint16_be, attribute_sizes, write_attribute, write_attributes,
  pack_attributes,
}
use ieee.Wsc.Entries.{Map, IsSorted}

abbrev pub Attribute : Type 0
Attribute = ℕ × List ℕ

-- What the C++ types and the check of `AddAttribute` guarantee of an attribute.
pub record IsAttribute (a : Attribute) : Type 0 where
  pub type_u16 : IsU16 a.0
  pub value_bytes : All IsByte a.1
  pub fits : length a.1 ≤ 0xFFFF

pub record IsValid (m : WscMessage) : Type 0 where
  pub sorted : IsSorted m.attributes
  pub attributes_valid : All IsAttribute m.attributes

pub make-IsValid : IsValid make
unfolding make
make-IsValid = record { sorted = tt; attributes_valid = tt }

abbrev pub wire_attribute : Attribute → List ℕ
wire_attribute a = big_endian a.0 ++ (big_endian (length a.1) ++ a.1)

abbrev pub wire_attributes : List Attribute → List ℕ
wire_attributes [] = []
wire_attributes (a ∷ l) = wire_attribute a ++ wire_attributes l

write_uint16_be-Writes : (n : ℕ) → IsU16 n → Writes (write_uint16_be n) (big_endian n)
unfolding write_uint16_be write_uint16
write_uint16_be-Writes n h = write_uint16-Writes n h

write_attribute-Writes :
    (k : ℕ) (v : List ℕ) → IsAttribute (k, v) → Writes (write_attribute k v) (wire_attribute (k, v))
unfolding write_attribute
write_attribute-Writes k v a =
    subst
      (λ n.
        Writes (λ w. write_uint16_be k w >>= λ w₁. write_uint16_be n w₁ >>= λ w₂. copy v w₂)
          (wire_attribute (k, v)))
      (sym short)
      (Writes-append (write_uint16_be-Writes k a.type_u16)
        (Writes-append (write_uint16_be-Writes (length v) (omega arith)) (copy-Writes v)))
  where
    short : u16 (length v) ≡ length v
    short = let bound : length v ≤ 0xFFFF = a.fits in omega arith

write_attributes-Writes :
    (m : Map (List ℕ)) → All IsAttribute m → Writes (write_attributes m) (wire_attributes m)
unfolding write_attributes
write_attributes-Writes [] h = Writes-nil
write_attributes-Writes ((k, v) ∷ m) h =
    Writes-append (write_attribute-Writes k v h.0) (write_attributes-Writes m h.1)

pub length-wire_attributes : (m : Map (List ℕ)) → length (wire_attributes m) ≡ attribute_sizes m
unfolding attribute_sizes
length-wire_attributes [] = refl
length-wire_attributes ((k, v) ∷ m) =
    omega (arith, length-wire_attributes m, length-append v (wire_attributes m))

-- For attributes in range `PackAttributes` never writes past the vector that it allocated, fills
-- it to its end, and returns the attributes in the order of their types.
pub pack_attributes-wire :
    (m : WscMessage)
    → All IsAttribute m.attributes
    → pack_attributes m ≡ ok (wire_attributes m.attributes)
unfolding pack_attributes
pack_attributes-wire m h = rw (
    Writes-fills (write_attributes m.attributes) (wire_attributes m.attributes)
      (replicate (attribute_sizes m.attributes) 0) (write_attributes-Writes m.attributes h)
      (length-replicate (attribute_sizes m.attributes) 0
        ∙ sym (length-wire_attributes m.attributes)))
