-- ===== src/Wsc/Refinement.antt =====
-- The methods of a WSC message, against a map from attribute types to values.
use ieee.Prelude.{
  ℕ, ◌≡◌, ◌↔◌, refl, sym, ap, ap₂, ◌∙◌, ltb, Bool-cases, inl, inr, if◌then◌else◌, IsU16, IsByte,
  All, length, List, [], ◌∷◌, Option, none, some,
}
use ieee.Result.{Result, Error, ok, err, length_error, ◌>>=◌}
use ieee.Wsc.{
  WscMessage, make, add_attribute, get_attribute_value, pack_attributes, parse_attributes,
}
use ieee.Wsc.Entries.{IsSorted, find}
use ieee.Wsc.Packing.{IsValid, make-IsValid}
use ieee.Wsc.Attributes.{add_attribute-IsValid}
use ieee.Wsc.Carrying.{parse_attributes-pack_attributes}
use ieee.Wsc.Contents.{
  Contents, empty, assign, value_of, contents, value_of-contents, contents-insert_or_assign,
  contents-injective,
}

-- A call on a message, or its journey: it is packed, and the bytes are parsed into a message.
pub data Operation : Type 0 where
  add : ℕ → List ℕ → Operation
  get : ℕ → Operation
  journey : Operation

-- What the caller sees.
pub data Reply : Type 0 where
  done : Reply
  thrown : Error → Reply
  value : List ℕ → Reply

-- A call that throws leaves the message as it was.
abbrev replied : WscMessage → Result WscMessage → Reply × WscMessage
replied m (ok m') = (done, m')
replied m (err e) = (thrown e, m)

abbrev pub perform : Operation → WscMessage → Reply × WscMessage
perform (add k v) m = replied m (add_attribute k v m)
perform (get k) m = (value (get_attribute_value k m), m)
perform journey m = replied m (pack_attributes m >>= parse_attributes)

abbrev pub perform_all : List Operation → WscMessage → List Reply × WscMessage
perform_all [] m = ([], m)
perform_all (o ∷ os) m =
    let (reply, m') = perform o m in
    let (replies, m'') = perform_all os m' in (reply ∷ replies, m'')

-- The same calls on the map. A value of more than 65535 bytes is refused, and a type that has no
-- value is given as one of no bytes.
abbrev value_or_empty : Option (List ℕ) → List ℕ
value_or_empty none = []
value_or_empty (some v) = v

get_attribute_value-value_of :
    (k : ℕ) (m : WscMessage)
    → IsSorted m.attributes
    → get_attribute_value k m ≡ value_or_empty (value_of k (contents m))
unfolding get_attribute_value
get_attribute_value-value_of k m s = rw (value_of-contents k m s) (go (find k m.attributes))
  where
    go : (o : Option (List ℕ)) → (elim o [ none ↦ [] | some v ↦ v ]) ≡ value_or_empty o
    go none = refl
    go (some v) = refl

abbrev pub expect : Operation → Contents → Reply × Contents
expect (add k v) c =
    if ltb 0xFFFF (length v)
    then (thrown (length_error "WSC Attribute value length exceeds 16-bit limit."), c)
    else (done, assign k v c)
expect (get k) c = (value (value_or_empty (value_of k c)), c)
expect journey c = (done, c)

abbrev pub expect_all : List Operation → Contents → List Reply × Contents
expect_all [] c = ([], c)
expect_all (o ∷ os) c =
    let (reply, c') = expect o c in let (replies, c'') = expect_all os c' in (reply ∷ replies, c'')

-- Types of 16 bits and values of bytes.
abbrev pub IsOperation : Operation → Type 0
IsOperation (add k v) = IsU16 k × All IsByte v
IsOperation _ = Unit

-- One call keeps the message valid, and does to what it holds what the map expects.
perform-expect :
    (o : Operation) (m : WscMessage)
    → IsOperation o
    → IsValid m
    → IsValid (perform o m).1
      × (((perform o m).0, contents (perform o m).1) ≡ expect o (contents m))
unfolding add_attribute
perform-expect (add k v) m h valid = elim (Bool-cases (ltb 0xFFFF (length v))) [
  | inl long ↦ rw long (valid, refl)
  | inr fits ↦ (
    rw fits (add_attribute-IsValid k v m _ h.0 h.1 valid (rw fits refl)),
    rw fits (ap (λ (c : Contents). (done, c)) (contents-insert_or_assign k v m valid.sorted)),
  )
]
perform-expect (get k) m h valid = (
  valid,
  ap (λ (v : List ℕ). (value v, contents m)) (get_attribute_value-value_of k m valid.sorted),
)
perform-expect journey m h valid = rw (parse_attributes-pack_attributes m valid) (valid, refl)

perform_all-expect_all :
    (os : List Operation) (m : WscMessage)
    → All IsOperation os
    → IsValid m
    → IsValid (perform_all os m).1
      × (((perform_all os m).0, contents (perform_all os m).1) ≡ expect_all os (contents m))
perform_all-expect_all [] m h valid = (valid, refl)
perform_all-expect_all (o ∷ os) m h valid =
    let (valid', same) = perform-expect o m h.0 valid in
    let (valid'', rest) = perform_all-expect_all os (perform o m).1 h.1 valid' in
    (
      valid'',
      ap₂ (λ (reply : Reply) (x : List Reply × Contents). (reply ∷ x.0, x.1))
          (ap (λ (x : Reply × Contents). x.0) same)
          (rest ∙ ap (λ (x : Reply × Contents). expect_all os x.1) same),
    )

-- Any sequence of `AddAttribute`, `GetAttributeValue` and journeys through `PackAttributes` and
-- `ParseAttributes`, with types of 16 bits and values of bytes, replies on a new message as a map
-- from types to values does, exceptions included, and leaves a valid message that holds what the
-- map does: a map that knows the last value of each type, and nothing of order, sorting or bytes.
pub perform_all-Refines :
    (os : List Operation)
    → All IsOperation os
    → IsValid (perform_all os make).1
      × (((perform_all os make).0, contents (perform_all os make).1) ≡ expect_all os empty)
unfolding make
perform_all-Refines os h = perform_all-expect_all os make h make-IsValid

-- The messages after two such sequences are equal exactly when the maps are.
pub perform_all-eq_iff :
    (os others : List Operation)
    → All IsOperation os
    → All IsOperation others
    → ((perform_all os make).1 ≡ (perform_all others make).1)
      ↔ ((expect_all os empty).1 ≡ (expect_all others empty).1)
perform_all-eq_iff os others h k =
    let (valid, same) = perform_all-Refines os h in
    let (valid', same') = perform_all-Refines others k in
    let held = ap (λ (x : List Reply × Contents). x.1) same in
    let held' = ap (λ (x : List Reply × Contents). x.1) same' in
    (
      λ e. sym held ∙ ap contents e ∙ held',
      λ e.
          contents-injective (perform_all os make).1 (perform_all others make).1 valid.sorted
            valid'.sorted (held ∙ e ∙ sym held'),
    )
