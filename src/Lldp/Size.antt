-- ===== src/Lldp/Size.antt =====
-- What `AddTlv` lets into a data unit, and the size of what it let in.
use ieee.Prelude.{
  ℕ, ◌+◌, ◌≤◌, ◌≡◌, ◌↔◌, refl, sym, ap, ◌∙◌, arith, length, All, List, [], ◌∷◌, ◌++◌, append_assoc,
  append-nil,
}
use ieee.Result.{Result, ok, ◌>>=◌, >>=-eq-ok}
use ieee.Tlv
use ieee.Tlv.{Tlv, get_type, get_length}
use ieee.Lldp.{LldpPdu, make, add_tlv, add_sizes, get_packed_size}
use ieee.Cmdu.Vector.{push_back}

-- A TLV that LLDP can carry: its type takes 7 bits and is not 0, its length takes 9 bits.
abbrev pub IsCarried : Tlv → Type 0
IsCarried t = (1 ≤ t.type) × (t.type ≤ 127) × (length t.value ≤ 511)

-- `AddTlv` accepts a valid TLV exactly when LLDP can carry it, and then puts it at the end.
pub add_tlv-eq-ok_iff :
    (t : Tlv) (p q : LldpPdu)
    → Tlv.IsValid t
    → (add_tlv t p ≡ ok q) ↔ (IsCarried t × (q.tlvs ≡ push_back p.tlvs t))
unfolding add_tlv get_type get_length
add_tlv-eq-ok_iff t p q v = (λ e. ground arith, λ h. ground arith)

-- Calls of `AddTlv` for each TLV in order, up to the first exception.
abbrev pub add_tlvs : List Tlv → LldpPdu → Result LldpPdu
add_tlvs [] p = ok p
add_tlvs (t ∷ ts) p = add_tlv t p >>= add_tlvs ts

-- Two header bytes and the value for each TLV, and two bytes for the END_OF_LLDPDU.
abbrev pub wire_size : List Tlv → ℕ
wire_size [] = 2
wire_size (t ∷ ts) = 2 + length t.value + wire_size ts

add_sizes_lem :
    (ts : List Tlv) (total : ℕ)
    → All IsCarried ts
    → (add_sizes total ts >>= λ n. ok (n + 2)) ≡ ok (total + wire_size ts)
unfolding add_sizes get_length
add_sizes_lem [] total h = refl
add_sizes_lem (t ∷ ts) total h = ground (arith, add_sizes_lem ts (total + (2 + length t.value)) h.1)

pub get_packed_size_lem :
    (ts : List Tlv) → All IsCarried ts → get_packed_size (record { tlvs = ts }) ≡ ok (wire_size ts)
unfolding get_packed_size
get_packed_size_lem ts h = add_sizes_lem ts 0 h ∙ ap ok (omega arith)

add_tlvs_lem :
    (ts : List Tlv) (p q : LldpPdu)
    → All Tlv.IsValid ts
    → add_tlvs ts p ≡ ok q
    → All IsCarried ts × (q.tlvs ≡ p.tlvs ++ ts)
add_tlvs_lem [] p q v e =
    (tt, ap (λ (r : LldpPdu). r.tlvs) (ground arith) ∙ sym (append-nil p.tlvs))
add_tlvs_lem (t ∷ ts) p q v e =
    let (r, first, later) = >>=-eq-ok (add_tlv t p) (add_tlvs ts) e in
    let (carried, at_end) = (add_tlv-eq-ok_iff t p r v.0).0 first in
    let (all, rest) = add_tlvs_lem ts r q v.1 later in
    ((carried, all), rest ∙ rw at_end (append_assoc p.tlvs (t ∷ []) ts))

-- If a new data unit took valid TLVs without an exception, it holds these in order, and
-- `GetPackedSize` returns their size on the wire and does not throw.
pub get_packed_size-add_tlvs :
    (ts : List Tlv) (p : LldpPdu)
    → All Tlv.IsValid ts
    → add_tlvs ts make ≡ ok p
    → (p.tlvs ≡ ts) × (get_packed_size p ≡ ok (wire_size ts))
unfolding make
get_packed_size-add_tlvs ts p v e =
    let (carried, held) = add_tlvs_lem ts make p v e in
    (
      held,
      ap (λ (l : List Tlv). get_packed_size (record { tlvs = l })) held
          ∙ get_packed_size_lem ts carried,
    )
