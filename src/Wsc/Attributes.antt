-- ===== src/Wsc/Attributes.antt =====
-- `AddAttribute` and `GetAttributeValue`: the message as a map.
use ieee.Prelude.{
  ℕ, ◌≤◌, ◌≡◌, ◌≢◌, arith, ◌==◌, if◌then◌else◌, length, All, IsByte, IsU16, List, [], ◌∷◌,
}
use ieee.Result.{ok, ◌>>=◌}
use ieee.Wsc.{WscMessage, add_attribute, get_attribute_value}
use ieee.Wsc.Entries.{
  Map, insert_or_assign, find-insert_or_assign, insert_or_assign-IsSorted, insert_or_assign_twice,
  insert_or_assign_comm,
}
use ieee.Wsc.Packing.{IsAttribute, IsValid}

-- With a value of at most 65535 bytes `AddAttribute` returns. Then `GetAttributeValue` gives this
-- value for its type, and for every other type what it gave before.
pub get_attribute_value-add_attribute :
    (k j : ℕ) (v : List ℕ) (m : WscMessage)
    → length v ≤ 0xFFFF
    → (add_attribute k v m >>= λ m'. ok (get_attribute_value j m'))
      ≡ ok (if k == j then v else get_attribute_value j m)
unfolding add_attribute get_attribute_value
get_attribute_value-add_attribute k j v m h =
    ground (arith, find-insert_or_assign k j v m.attributes)

pub All-insert_or_assign :
    (k : ℕ) (v : List ℕ) (m : Map (List ℕ))
    → IsAttribute (k, v)
    → All IsAttribute m
    → All IsAttribute (insert_or_assign k v m)
unfolding insert_or_assign
All-insert_or_assign k v [] a h = (a, tt)
All-insert_or_assign k v ((j, w) ∷ m) a h = ground (arith, All-insert_or_assign k v m a h.1)

-- `AddAttribute` of a 16-bit type and a value of bytes, where it returns, keeps the map sorted and
-- its attributes in range.
pub add_attribute-IsValid :
    (k : ℕ) (v : List ℕ) (m m' : WscMessage)
    → IsU16 k
    → All IsByte v
    → IsValid m
    → add_attribute k v m ≡ ok m'
    → IsValid m'
unfolding add_attribute
add_attribute-IsValid k v m m' hk hv valid e =
    let fits : length v ≤ 0xFFFF = ground arith in
    let same : m' ≡ record { attributes = insert_or_assign k v m.attributes } = ground arith in
    rw same (record {
      sorted = insert_or_assign-IsSorted k v m.attributes valid.sorted;
      attributes_valid =
          All-insert_or_assign k v m.attributes
            (record { type_u16 = hk; value_bytes = hv; fits = fits }) valid.attributes_valid;
    })

-- The order in which attributes of two different types are added does not matter, exceptions
-- included.
pub add_attribute_comm :
    (k j : ℕ) (v w : List ℕ) (m : WscMessage)
    → k ≢ j
    → (add_attribute k v m >>= add_attribute j w) ≡ (add_attribute j w m >>= add_attribute k v)
unfolding add_attribute
add_attribute_comm k j v w m n = ground (arith, insert_or_assign_comm k j v w m.attributes)

-- Of two values added under one type, the first of at most 65535 bytes, only the second is kept.
pub add_attribute_twice :
    (k : ℕ) (v w : List ℕ) (m : WscMessage)
    → length v ≤ 0xFFFF
    → (add_attribute k v m >>= add_attribute k w) ≡ add_attribute k w m
unfolding add_attribute
add_attribute_twice k v w m h = ground (arith, insert_or_assign_twice k v w m.attributes)
