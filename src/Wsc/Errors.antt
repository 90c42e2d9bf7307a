-- ===== src/Wsc/Errors.antt =====
-- Which exception `ParseAttributes` throws at which bytes.
use ieee.Prelude.{
  String, ℕ, zero, suc, ◌+◌, ◌*◌, ◌≤◌, ◌<◌, ◌≡◌, ◌↔◌, ◌⊎◌, refl, sym, ap, subst, ◌∙◌, arith, ltb,
  lt→ltb, Bool-cases, inl, inr, length, length-drop, drop, All, All-append_right, All-take, IsByte,
  List, [], ◌∷◌, ◌++◌, append_assoc,
}
use ieee.Result.{same_error, Result, Error, ok, err, runtime_error, ◌>>=◌}
use ieee.Wsc.{WscMessage, read_attribute, read_attributes, parse_attributes}
use ieee.Wsc.Entries.{Map, insert_or_assign}
use ieee.Wsc.Packing.{Attribute, IsAttribute, wire_attribute, wire_attributes}
use ieee.Wsc.Fields.{read_attribute_lem, read_attribute-wire_attribute, taken}
use ieee.Wsc.Parsing.{insert_all, read_attributes_step, parse_attributes_read}
use ieee.Bytes.Reads.{more_rounds, le-more_rounds}
use ieee.Wsc.Termination.{read_attributes_rounds}

-- The bytes are complete attributes before `tail`.
pub record Before (raw tail : List ℕ) : Type 0 where
  pub attributes : List Attribute
  pub layout : raw ≡ wire_attributes attributes ++ tail
  pub in_range : All IsAttribute attributes

-- What is wrong with the bytes, and what the exception says.
pub data IsMalformed (raw : List ℕ) : String → Type 0 where
  cut_header :
      (tail : List ℕ)
      → Before raw tail
      → 1 ≤ length tail
      → length tail ≤ 3
      → IsMalformed raw "Incomplete WSC Attribute header in WscMessage."
  cut_value :
      (t₁ t₀ high low : ℕ) (value : List ℕ)
      → Before raw (t₁ ∷ t₀ ∷ high ∷ low ∷ value)
      → length value < high * 256 + low
      → IsMalformed raw "WSC Attribute value truncated."

-- The loop takes one round for each of the complete attributes.
read_attributes-more_rounds :
    (l : List Attribute) (tail : List ℕ) (fuel : ℕ) (m : Map (List ℕ))
    → All IsAttribute l
    → read_attributes (more_rounds l fuel) (wire_attributes l ++ tail) m
      ≡ read_attributes fuel tail (insert_all l m)
read_attributes-more_rounds [] tail fuel m h = refl
read_attributes-more_rounds ((k, v) ∷ l) tail fuel m h =
    ap (λ (bs : List ℕ). read_attributes (suc (more_rounds l fuel)) bs m)
      (append_assoc (wire_attribute (k, v)) (wire_attributes l) tail)
    ∙ read_attributes_step (more_rounds l fuel) _ _ m
    ∙ rw (read_attribute-wire_attribute (k, v) (wire_attributes l ++ tail) h.0)
        (read_attributes-more_rounds l tail fuel (insert_or_assign k v m) h.1)

finish : Result (Map (List ℕ)) → Result WscMessage
finish r = r >>= λ m. ok (record { attributes = m })

parse_attributes-Before :
    (raw tail : List ℕ) (p : Before raw tail)
    → parse_attributes raw
      ≡ finish (read_attributes (suc (length raw)) tail (insert_all p.attributes []))
unfolding parse_attributes finish
parse_attributes-Before raw tail p = ap finish (
    (read_attributes_rounds (length raw) (more_rounds p.attributes (suc (length raw))) raw []
      (omega arith) (omega (arith, le-more_rounds p.attributes (suc (length raw))))).0
    ∙ ap (λ (bs : List ℕ). read_attributes (more_rounds p.attributes (suc (length raw))) bs [])
        p.layout
    ∙ read_attributes-more_rounds p.attributes tail (suc (length raw)) [] p.in_range)

read_cut_header :
    (fuel : ℕ) (tail : List ℕ) (m : Map (List ℕ))
    → 1 ≤ length tail
    → length tail ≤ 3
    → read_attributes (suc fuel) tail m
      ≡ err (runtime_error "Incomplete WSC Attribute header in WscMessage.")
unfolding read_attributes read_attribute
read_cut_header fuel (a ∷ []) m h k = refl
read_cut_header fuel (a ∷ b ∷ []) m h k = refl
read_cut_header fuel (a ∷ b ∷ c ∷ []) m h k = refl
read_cut_header fuel _ m h k = absurd (omega arith)

read_cut_value :
    (fuel t₁ t₀ high low : ℕ) (value : List ℕ) (m : Map (List ℕ))
    → All IsByte (t₁ ∷ t₀ ∷ high ∷ low ∷ [])
    → length value < high * 256 + low
    → read_attributes (suc fuel) (t₁ ∷ t₀ ∷ high ∷ low ∷ value) m
      ≡ err (runtime_error "WSC Attribute value truncated.")
unfolding read_attributes
read_cut_value fuel t₁ t₀ high low value m h short =
    rw (read_attribute_lem t₁ t₀ high low value h, lt→ltb (length value) (high * 256 + low) short)
      refl

-- Bytes with something wrong are refused, with the exception for it.
parse_attributes_malformed :
    (raw : List ℕ) (what : String)
    → All IsByte raw
    → IsMalformed raw what
    → parse_attributes raw ≡ err (runtime_error what)
unfolding finish
parse_attributes_malformed raw _ b (cut_header tail p low high) =
    parse_attributes-Before raw tail p
    ∙ ap finish (read_cut_header (length raw) tail (insert_all p.attributes []) low high)
parse_attributes_malformed raw _ b (cut_value t₁ t₀ high low value p short) =
    let tail : List ℕ = t₁ ∷ t₀ ∷ high ∷ low ∷ value in
    let bytes : All IsByte tail =
      All-append_right IsByte (wire_attributes p.attributes) tail (subst (All IsByte) p.layout b) in
    parse_attributes-Before raw tail p
    ∙ ap finish (
        read_cut_value (length raw) t₁ t₀ high low value (insert_all p.attributes [])
          (All-take IsByte 4 tail bytes) short)

-- Bytes are complete attributes, or something is wrong with them.
abbrev Layout : List ℕ → Type 0
Layout raw =
    ((l : List Attribute) × All IsAttribute l × (raw ≡ wire_attributes l))
    ⊎ ((what : String) × IsMalformed raw what)

Before-nil : (tail : List ℕ) → Before tail tail
Before-nil tail = record { attributes = []; layout = refl; in_range = tt }

Before-cons :
    (a : Attribute) (raw tail : List ℕ)
    → IsAttribute a
    → Before raw tail
    → Before (wire_attribute a ++ raw) tail
Before-cons a raw tail h p = record {
  attributes = a ∷ p.attributes;
  layout =
      ap (λ (bs : List ℕ). wire_attribute a ++ bs) p.layout
      ∙ sym (append_assoc (wire_attribute a) (wire_attributes p.attributes) tail);
  in_range = (h, p.in_range);
}

Layout-cons :
    (a : Attribute) (raw : List ℕ) → IsAttribute a → Layout raw → Layout (wire_attribute a ++ raw)
Layout-cons a raw h (inl (l, all, e)) =
    inl (a ∷ l, (h, all), ap (λ (bs : List ℕ). wire_attribute a ++ bs) e)
Layout-cons a raw h (inr (_, cut_header tail p low high)) =
    inr (_, cut_header tail (Before-cons a raw tail h p) low high)
Layout-cons a raw h (inr (_, cut_value t₁ t₀ high low value p short)) =
    inr (_, cut_value t₁ t₀ high low value (Before-cons a raw _ h p) short)

-- `n` bounds the length.
layout : (n : ℕ) (raw : List ℕ) → length raw ≤ n → All IsByte raw → Layout raw
layout n [] h b = inl ([], tt, refl)
layout zero (x ∷ bs) h b = absurd (omega arith)
layout (suc n) (t₁ ∷ t₀ ∷ high ∷ low ∷ rest) h b =
    elim (Bool-cases (ltb (length rest) (high * 256 + low))) [
      | inl short ↦ inr (_, cut_value t₁ t₀ high low rest (Before-nil _) (ground arith))
      | inr enough ↦
          let (whole, valid, bytes) = taken t₁ t₀ high low rest b enough in
          subst Layout (sym whole) (
            Layout-cons _ (drop (high * 256 + low) rest) valid (
              layout n (drop (high * 256 + low) rest)
                (omega (arith, length-drop (high * 256 + low) rest)) bytes))
    ]
layout (suc n) bs h b = inr (_, cut_header bs (Before-nil bs) (ground arith) (ground arith))

attributes_parsed :
    (raw : List ℕ) (l : List Attribute)
    → All IsAttribute l
    → raw ≡ wire_attributes l
    → parse_attributes raw ≡ ok (record { attributes = insert_all l [] })
attributes_parsed raw l all e =
    parse_attributes_read raw _
      (record { attributes = l; layout = e; in_range = all; assigned = refl })

-- Bytes are refused exactly when something is wrong with them, and what is wrong decides the
-- exception, which is always a runtime_error: behind complete attributes there are one to three
-- bytes, or the header of an attribute and less than its length.
pub parse_attributes-eq-err_iff :
    (raw : List ℕ) (e : Error)
    → All IsByte raw
    → (parse_attributes raw ≡ err e)
      ↔ ((what : String) × (e ≡ runtime_error what) × IsMalformed raw what)
parse_attributes-eq-err_iff raw e b = (
  λ thrown. elim (layout (length raw) raw (omega arith) b) [
    | inl (l, all, whole) ↦ cc (attributes_parsed raw l all whole)
    | inr (what, wrong) ↦
        (what, same_error (sym thrown ∙ parse_attributes_malformed raw what b wrong), wrong)
  ],
  λ (what, same, wrong). parse_attributes_malformed raw what b wrong ∙ ap err (sym same),
)
