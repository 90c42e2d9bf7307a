-- ===== src/Wsc/Parsing.antt =====
-- `ParseAttributes`: what it accepts and returns.
use ieee.Prelude.{
  ℕ, zero, suc, ◌/◌, ◌≤◌, ◌≡◌, ◌↔◌, refl, ap, ◌∙◌, arith, length, length-append, All, IsByte, List,
  [], ◌∷◌, ◌++◌,
}
use ieee.Result.{ok, ◌>>=◌, Safely, Safely-bind, Safely-map, Safely-ok}
use ieee.Wsc.{WscMessage, read_attribute, read_attributes, parse_attributes}
use ieee.Wsc.Entries.{Map, insert_or_assign, insert_or_assign-IsSorted}
use ieee.Wsc.Attributes.{All-insert_or_assign}
use ieee.Wsc.Fields.{read_attribute-wire_attribute, read_attribute-Safely}
use ieee.Wsc.Packing.{Attribute, IsAttribute, IsValid, wire_attribute, wire_attributes}

-- The assignments `m[k] = v` for the attributes in order.
abbrev pub insert_all : List Attribute → Map (List ℕ) → Map (List ℕ)
insert_all [] m = m
insert_all ((k, v) ∷ l) m = insert_all l (insert_or_assign k v m)

-- `raw` is a sequence of attributes, and `after` what assigning them to `before` gives.
pub record IsRead (raw : List ℕ) (before after : Map (List ℕ)) : Type 0 where
  pub attributes : List Attribute
  pub layout : raw ≡ wire_attributes attributes
  pub in_range : All IsAttribute attributes
  pub assigned : after ≡ insert_all attributes before

IsRead-cons :
    (k : ℕ) (v raw : List ℕ) (before after : Map (List ℕ))
    → IsAttribute (k, v)
    → IsRead raw (insert_or_assign k v before) after
    → IsRead (wire_attribute (k, v) ++ raw) before after
IsRead-cons k v raw before after a r = record {
  attributes = (k, v) ∷ r.attributes;
  layout = ap (λ (bs : List ℕ). wire_attribute (k, v) ++ bs) r.layout;
  in_range = (a, r.in_range);
  assigned = r.assigned;
}

pub read_attributes_step :
    (fuel b : ℕ) (bs : List ℕ) (m : Map (List ℕ))
    → read_attributes (suc fuel) (b ∷ bs) m ≡ (
        read_attribute (b ∷ bs) >>= λ (a, ptr).
        read_attributes fuel ptr (insert_or_assign a.0 a.1 m))
unfolding read_attributes
read_attributes_step fuel b bs m = refl

read_attributes-Safely :
    (fuel : ℕ) (ptr : List ℕ) (m : Map (List ℕ))
    → length ptr ≤ fuel
    → All IsByte ptr
    → Safely (IsRead ptr m) (read_attributes fuel ptr m)
read_attributes-Safely fuel [] m h b =
    unfold read_attributes in
    record { attributes = []; layout = refl; in_range = tt; assigned = refl }
read_attributes-Safely zero (b ∷ bs) m h by = absurd (omega arith)
read_attributes-Safely (suc fuel) (b ∷ bs) m h by = rw (read_attributes_step fuel b bs m) (
    Safely-bind _ (IsRead (b ∷ bs) m) (read_attribute (b ∷ bs)) _
      (read_attribute-Safely (b ∷ bs) by)
      λ (a, ptr) p. rw p.0 (
        Safely-map _ _ _
          (read_attributes-Safely fuel ptr (insert_or_assign a.0 a.1 m)
            (omega (arith, ap length p.0, length-append a.1 ptr)) p.2)
          λ m' r. IsRead-cons a.0 a.1 ptr m m' p.1 r))

read_attributes-wire_attributes :
    (l : List Attribute) (fuel : ℕ) (m : Map (List ℕ))
    → All IsAttribute l
    → length (wire_attributes l) ≤ fuel
    → read_attributes fuel (wire_attributes l) m ≡ ok (insert_all l m)
read_attributes-wire_attributes [] fuel m a h = unfold read_attributes in refl
read_attributes-wire_attributes ((k, v) ∷ l) zero m a h = absurd (omega arith)
read_attributes-wire_attributes ((k, v) ∷ l) (suc fuel) m a h =
    read_attributes_step fuel (k / 256) _ m
    ∙ rw (read_attribute-wire_attribute (k, v) (wire_attributes l) a.0) (
        read_attributes-wire_attributes l fuel (insert_or_assign k v m) a.1
          (omega (arith, length-append v (wire_attributes l))))

-- On bytes `ParseAttributes` never reads outside its buffer and its loop ends: it throws a
-- runtime_error and nothing else, or the buffer is a sequence of attributes and the result assigns
-- them to an empty map in this order.
pub parse_attributes-Safely :
    (raw : List ℕ)
    → All IsByte raw
    → Safely (λ m. IsRead raw [] m.attributes) (parse_attributes raw)
unfolding parse_attributes
parse_attributes-Safely raw h =
    Safely-bind (IsRead raw []) (λ m. IsRead raw [] m.attributes)
      (read_attributes (length raw) raw []) _
      (read_attributes-Safely (length raw) raw [] (omega arith) h) λ m r. r

pub parse_attributes_read :
    (raw : List ℕ) (m : WscMessage) → IsRead raw [] m.attributes → parse_attributes raw ≡ ok m
unfolding parse_attributes
parse_attributes_read raw m r = rw (
  r.layout,
  read_attributes-wire_attributes r.attributes (length (wire_attributes r.attributes)) [] r.in_range
      (omega arith),
  r.assigned,
)

-- Raw bytes parse to a message exactly when they are a sequence of attributes, in any order and
-- with repetitions, and the message assigns these in order.
pub parse_attributes-eq-ok_iff :
    (raw : List ℕ) (m : WscMessage)
    → All IsByte raw
    → (parse_attributes raw ≡ ok m) ↔ IsRead raw [] m.attributes
parse_attributes-eq-ok_iff raw m h = (
  Safely-ok (λ n. IsRead raw [] n.attributes) (parse_attributes raw)
      (parse_attributes-Safely raw h),
  parse_attributes_read raw m,
)

insert_all-IsValid :
    (l : List Attribute) (m : WscMessage)
    → All IsAttribute l
    → IsValid m
    → IsValid (record { attributes = insert_all l m.attributes })
insert_all-IsValid [] m a v = v
insert_all-IsValid ((k, w) ∷ l) m a v =
    insert_all-IsValid l (record { attributes = insert_or_assign k w m.attributes }) a.1
      (record {
        sorted = insert_or_assign-IsSorted k w m.attributes v.sorted;
        attributes_valid = All-insert_or_assign k w m.attributes a.0 v.attributes_valid;
      })

-- What `ParseAttributes` returns for bytes is sorted by type and has values in range.
pub parse_attributes-IsValid :
    (raw : List ℕ) (m : WscMessage) → All IsByte raw → parse_attributes raw ≡ ok m → IsValid m
parse_attributes-IsValid raw m h e =
    let r : IsRead raw [] m.attributes = (parse_attributes-eq-ok_iff raw m h).0 e in
    rw r.assigned (
      insert_all-IsValid r.attributes (record { attributes = [] }) r.in_range
        (record { sorted = tt; attributes_valid = tt }))
