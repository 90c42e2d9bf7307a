-- ===== src/Parser/Scan.antt =====
-- What bytes behind a header are: complete TLVs, and what follows the last of them.
use ieee.Prelude.{
  ℕ, zero, suc, ◌+◌, ◌*◌, ◌≤◌, ◌<◌, ◌≡◌, refl, sym, ap, ◌∙◌, arith, ltb, ◌==◌, ==_iff, Bool-cases,
  inl, inr, length, length-drop, take, drop, All, IsByte, List, [], ◌∷◌, ◌++◌, append_assoc,
}
use ieee.Tlv
use ieee.Tlv.{Tlv}
use ieee.TlvTypes.{end_of_message}
use ieee.Cmdu.Ending.{NotEnd}
use ieee.Serializer.Wire.{wire_tlv, wire_tlvs}
use ieee.Parser.Tokens.{taken}

-- What follows complete TLVs: an END_OF_MESSAGE and padding, nothing, one or two bytes, or the
-- three header bytes of a TLV and less than the length that they give.
pub data Tail (tail : List ℕ) : Type 0 where
  ended :
      (t : Tlv) (pad : List ℕ)
      → tail ≡ wire_tlv t ++ pad
      → Tlv.IsValid t
      → t.type ≡ end_of_message
      → Tail tail
  nothing : tail ≡ [] → Tail tail
  header_cut : 1 ≤ length tail → length tail ≤ 2 → Tail tail
  value_cut :
      (type high low : ℕ) (value : List ℕ)
      → tail ≡ type ∷ high ∷ low ∷ value
      → length value < high * 256 + low
      → Tail tail

-- The complete TLVs before it, none of which is an END_OF_MESSAGE.
pub record Scan (bytes : List ℕ) : Type 0 where
  pub ts : List Tlv
  pub tail : List ℕ
  pub layout : bytes ≡ wire_tlvs ts ++ tail
  pub valid : All Tlv.IsValid ts
  pub not_end : All NotEnd ts
  pub rest : Tail tail

scan_tail : (bytes : List ℕ) → Tail bytes → Scan bytes
scan_tail bytes t = record {
  ts = [];
  tail = bytes;
  layout = refl;
  valid = tt;
  not_end = tt;
  rest = t;
}

scan_cons :
    (t : Tlv) (bytes : List ℕ) → Tlv.IsValid t → NotEnd t → Scan bytes → Scan (wire_tlv t ++ bytes)
scan_cons t bytes v n s = record {
  ts = t ∷ s.ts;
  tail = s.tail;
  layout =
      ap (λ (bs : List ℕ). wire_tlv t ++ bs) s.layout
      ∙ sym (append_assoc (wire_tlv t) (wire_tlvs s.ts) s.tail);
  valid = (v, s.valid);
  not_end = (n, s.not_end);
  rest = s.rest;
}

-- Every sequence of bytes is of this form. `n` bounds its length.
pub scan : (n : ℕ) (bytes : List ℕ) → length bytes ≤ n → All IsByte bytes → Scan bytes
scan n [] h b = scan_tail [] (nothing refl)
scan zero (x ∷ bs) h b = absurd (omega arith)
scan (suc n) (x ∷ []) h b = scan_tail (x ∷ []) (header_cut (omega arith) (omega arith))
scan (suc n) (x ∷ y ∷ []) h b = scan_tail (x ∷ y ∷ []) (header_cut (omega arith) (omega arith))
scan (suc n) (type ∷ high ∷ low ∷ rest) h b =
    elim (Bool-cases (ltb (length rest) (high * 256 + low))) [
      | inl short ↦
          scan_tail (type ∷ high ∷ low ∷ rest) (value_cut type high low rest refl (ground arith))
      | inr enough ↦
          let t : Tlv = record { type = type; value = take (high * 256 + low) rest } in
          let (whole, valid, bytes) = taken type high low rest b enough in
          elim (Bool-cases (type == end_of_message)) [
            | inl e ↦
                scan_tail (type ∷ high ∷ low ∷ rest)
                  (ended t (drop (high * 256 + low) rest) whole valid ((==_iff _ _).0 e))
            | inr e ↦ rw whole (
                scan_cons t (drop (high * 256 + low) rest) valid (ground arith) (
                  scan n (drop (high * 256 + low) rest)
                    (omega (arith, length-drop (high * 256 + low) rest)) bytes))
          ]
    ]
