-- ===== src/Lldp/Refusals.antt =====
-- `AddTlv`, exceptions included.
use ieee.Prelude.{
  ◌≤◌, ◌≡◌, ◌⊎◌, inl, inr, refl, sym, ap, ◌∙◌, arith, ltb, ◌==◌, Bool-cases, length, All, List, [],
  ◌∷◌, ◌++◌, append_assoc, append-nil,
}
use ieee.Result.{Error, ok, err, invalid_argument, length_error}
use ieee.Tlv
use ieee.Tlv.{Tlv, get_type, get_length}
use ieee.Lldp.{LldpPdu, make, add_tlv, get_packed_size}
use ieee.Lldp.Size.{IsCarried, add_tlv-eq-ok_iff, add_tlvs, wire_size, get_packed_size_lem}

-- The exception of `AddTlv`, by what is wrong with the TLV.
pub data Refusal (t : Tlv) : Error → Type 0 where
  end_of_unit :
      t.type ≡ 0
      → Refusal t
          (invalid_argument "END_OF_LLDPDU must not be added manually. It is managed by LldpPdu.")
  eight_bit_type :
      128 ≤ t.type → Refusal t (invalid_argument "LLDP TLV Type exceeds 7-bit limit (max 127).")
  ten_bit_length :
      1 ≤ t.type
      → t.type ≤ 127
      → 512 ≤ length t.value
      → Refusal t (length_error "LLDP TLV Value length exceeds 9-bit limit (max 511 bytes).")

-- One call: the TLV goes to the end, or it is refused.
add_tlv-cases :
    (t : Tlv) (p : LldpPdu)
    → Tlv.IsValid t
    → (IsCarried t × (add_tlv t p ≡ ok (record { tlvs = p.tlvs ++ (t ∷ []) })))
      ⊎ ((e : Error) × Refusal t e × (add_tlv t p ≡ err e))
unfolding add_tlv get_type get_length
add_tlv-cases t p v = elim (Bool-cases (t.type == 0)) [
  | inl e ↦ inr (_, end_of_unit (ground arith), ground arith)
  | inr e ↦ elim (Bool-cases (ltb 127 t.type)) [
    | inl f ↦ inr (_, eight_bit_type (ground arith), ground arith)
    | inr f ↦ elim (Bool-cases (ltb 0x1FF (length t.value))) [
      | inl g ↦ inr (_, ten_bit_length (ground arith) (ground arith) (ground arith), ground arith)
      | inr g ↦
          let carried : IsCarried t = ground arith in
          inl (carried, (add_tlv-eq-ok_iff t p _ v).1 (carried, refl))
    ]
  ]
]

-- The first TLV that is refused, with those before it.
pub record Refused (ts : List Tlv) (e : Error) : Type 0 where
  pub front : List Tlv
  pub tlv : Tlv
  pub back : List Tlv
  pub position : ts ≡ front ++ (tlv ∷ back)
  pub carried : All IsCarried front
  pub refusal : Refusal tlv e

Refused-cons :
    (t : Tlv) (ts : List Tlv) (e : Error) → IsCarried t → Refused ts e → Refused (t ∷ ts) e
Refused-cons t ts e c r = record {
  front = t ∷ r.front;
  tlv = r.tlv;
  back = r.back;
  position = ap (◌∷◌ t) r.position;
  carried = (c, r.carried);
  refusal = r.refusal;
}

add_tlvs-cases :
    (ts : List Tlv) (p : LldpPdu)
    → All Tlv.IsValid ts
    → (All IsCarried ts × (add_tlvs ts p ≡ ok (record { tlvs = p.tlvs ++ ts })))
      ⊎ ((e : Error) × Refused ts e × (add_tlvs ts p ≡ err e))
add_tlvs-cases [] p v =
    inl (tt, ap (λ (l : List Tlv). ok (record { tlvs = l })) (sym (append-nil p.tlvs)))
add_tlvs-cases (t ∷ ts) p v = elim (add_tlv-cases t p v.0) [
  | inr (e, refusal, thrown) ↦ inr (
    e,
    record { front = []; tlv = t; back = ts; position = refl; carried = tt; refusal = refusal },
    rw thrown refl,
  )
  | inl (carried, added) ↦ elim (add_tlvs-cases ts (record { tlvs = p.tlvs ++ (t ∷ []) }) v.1) [
    | inl (all, held) ↦ inl (
      (carried, all),
      rw added (
          held ∙ ap (λ (l : List Tlv). ok (record { tlvs = l })) (append_assoc p.tlvs (t ∷ []) ts)),
    )
    | inr (e, refused, thrown) ↦ inr (e, Refused-cons t ts e carried refused, rw added thrown)
  ]
]

-- Calls of `AddTlv` on a new data unit with any valid TLVs: either LLDP can carry them all, the
-- unit takes them in order, and `GetPackedSize` returns their size on the wire, or the first one
-- that LLDP cannot carry is refused with the exception and the text for what is wrong with it.
pub add_tlvs-make_cases :
    (ts : List Tlv)
    → All Tlv.IsValid ts
    → (All IsCarried ts
        × (add_tlvs ts make ≡ ok (record { tlvs = ts }))
        × (get_packed_size (record { tlvs = ts }) ≡ ok (wire_size ts)))
      ⊎ ((e : Error) × Refused ts e × (add_tlvs ts make ≡ err e))
unfolding make
add_tlvs-make_cases ts v = elim (add_tlvs-cases ts make v) [
  | inl (all, held) ↦ inl (all, held, get_packed_size_lem ts all)
  | inr refused ↦ inr refused
]
