-- ===== src/Wsc/Bounds.antt =====
-- How large a WSC message can be.
use ieee.Prelude.{ℕ, suc, ◌+◌, ◌*◌, ◌^◌, ◌≤◌, ◌<◌, arith, length, All, List, [], ◌∷◌}
use ieee.Wsc.{WscMessage, attribute_sizes}
use ieee.Wsc.Entries.{Map, IsSorted}
use ieee.Wsc.Packing.{IsAttribute, IsValid}

attribute_sizes-le : (m : Map (List ℕ)) → All IsAttribute m → attribute_sizes m ≤ 65539 * length m
unfolding attribute_sizes
attribute_sizes-le [] h = omega arith
attribute_sizes-le ((k, v) ∷ m) h =
    let fits : length v ≤ 65535 = (h.0).fits in omega (arith, attribute_sizes-le m h.1)

-- Increasing keys from `low` on are at most as many as the numbers up to 65535.
entries-le :
    (low k : ℕ) (v : List ℕ) (m : Map (List ℕ))
    → low ≤ k
    → IsSorted ((k, v) ∷ m)
    → All IsAttribute ((k, v) ∷ m)
    → low + length ((k, v) ∷ m) ≤ 65536
entries-le low k v [] h s a = let u = (a.0).type_u16 in omega arith
entries-le low k v ((j, w) ∷ m) h s a =
    omega (arith, entries-le (suc low) j w m (omega arith) s.1 a.1)

entries : (m : Map (List ℕ)) → IsSorted m → All IsAttribute m → length m ≤ 65536
entries [] s a = omega arith
entries ((k, v) ∷ m) s a = omega (arith, entries-le 0 k v m (omega arith) s a)

-- A valid WSC message has at most 65536 attributes, one for each type, and the size that
-- `PackAttributes` computes is at most 65539 bytes for each: the sum does not wrap in a size_t of
-- 64 bits, however many calls of `AddAttribute` built the message.
pub attribute_sizes_bounds :
    (m : WscMessage)
    → IsValid m
    → (length m.attributes ≤ 65536)
      × (attribute_sizes m.attributes ≤ 65539 * length m.attributes)
      × (attribute_sizes m.attributes < 2 ^ 64)
attribute_sizes_bounds m v =
    let count = entries m.attributes v.sorted v.attributes_valid in
    let sizes = attribute_sizes-le m.attributes v.attributes_valid in (count, sizes, omega arith)
