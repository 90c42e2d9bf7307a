-- ===== src/Parser/Injective.antt =====
-- What the bytes that `Pack` returns tell of the message.
use ieee.Prelude.{
  ℕ, ◌/◌, ◌%◌, ◌≡◌, ◌↔◌, refl, sym, ap, ap₂, ◌∙◌, arith, Bool-cases, inl, inr, All, All-append,
  List, [], ◌∷◌, ◌++◌, append_assoc,
}
use ieee.Result.{Result, ok}
use ieee.Tlv
use ieee.Tlv.{Tlv}
use ieee.Cmdu
use ieee.Cmdu.{Cmdu, ends_message}
use ieee.Serializer.{pack}
use ieee.Serializer.Wire.{wire, wire_fields, wire_tlv, wire_tlvs, closing, pack-wire}
use ieee.Parser.{read_tlv}
use ieee.Parser.RoundTrip.{end_tlv-IsValid}
use ieee.Parser.Tokens.{read_tlv-wire_tlv}

-- The message with the END_OF_MESSAGE that `Pack` adds.
abbrev pub closed : Cmdu → Cmdu
closed c = record c { tlvs = c.tlvs ++ closing c.tlvs }

-- The first of two TLVs in wire format ends where the second begins.
wire_tlv-cancel :
    (t u : Tlv) (rest others : List ℕ)
    → Tlv.IsValid t
    → Tlv.IsValid u
    → wire_tlv t ++ rest ≡ wire_tlv u ++ others
    → (t ≡ u) × (rest ≡ others)
wire_tlv-cancel t u rest others v w e =
    let one = read_tlv-wire_tlv t rest v in
    let other = read_tlv-wire_tlv u others w in
    let same : ◌≡◌ {A = Result (Tlv × List ℕ)} (ok (t, rest)) (ok (u, others)) =
      sym one ∙ ap read_tlv e ∙ other in
    (cc, cc)

wire_tlvs-injective :
    (ts us : List Tlv)
    → All Tlv.IsValid ts
    → All Tlv.IsValid us
    → wire_tlvs ts ≡ wire_tlvs us
    → ts ≡ us
wire_tlvs-injective [] [] v w e = refl
wire_tlvs-injective [] (u ∷ us) v w e = cc
wire_tlvs-injective (t ∷ ts) [] v w e = cc
wire_tlvs-injective (t ∷ ts) (u ∷ us) v w e =
    let (same, rest) = wire_tlv-cancel t u (wire_tlvs ts) (wire_tlvs us) v.0 w.0 e in
    ap₂ (◌∷◌) same (wire_tlvs-injective ts us v.1 w.1 rest)

big_endian-injective : (m n : ℕ) → m / 256 ≡ n / 256 → m % 256 ≡ n % 256 → m ≡ n
big_endian-injective m n high low = omega arith

wire_tlvs-append : (ts us : List Tlv) → wire_tlvs (ts ++ us) ≡ wire_tlvs ts ++ wire_tlvs us
wire_tlvs-append [] us = refl
wire_tlvs-append (t ∷ ts) us =
    ap (λ (bs : List ℕ). wire_tlv t ++ bs) (wire_tlvs-append ts us)
    ∙ sym (append_assoc (wire_tlv t) (wire_tlvs ts) (wire_tlvs us))

-- The bytes of a message to which `Pack` adds nothing.
abbrev bytes_of : Cmdu → List ℕ
bytes_of c = 0 ∷ 0 ∷ (wire_fields c ++ wire_tlvs c.tlvs)

bytes_of-injective :
    (c d : Cmdu) → All Tlv.IsValid c.tlvs → All Tlv.IsValid d.tlvs → bytes_of c ≡ bytes_of d → c ≡ d
bytes_of-injective c d v w e = λ i. record {
  type = big_endian-injective c.type d.type (cc) (cc) i;
  id = big_endian-injective c.id d.id (cc) (cc) i;
  flags = flags i;
  fragment_id = fragment_id i;
  tlvs = wire_tlvs-injective c.tlvs d.tlvs v w (cc) i;
}
  where
    flags : c.flags ≡ d.flags
    flags = cc e

    fragment_id : c.fragment_id ≡ d.fragment_id
    fragment_id = cc e

wire-closed : (c : Cmdu) → wire c ≡ bytes_of (closed c)
wire-closed c =
    ap (λ (bs : List ℕ). 0 ∷ 0 ∷ (wire_fields c ++ bs))
      (sym (wire_tlvs-append c.tlvs (closing c.tlvs)))

closed-IsValid : (c : Cmdu) → Cmdu.IsValid c → All Tlv.IsValid (closed c).tlvs
closed-IsValid c v =
    All-append Tlv.IsValid c.tlvs (closing c.tlvs) v.tlvs_valid
      (elim (Bool-cases (ends_message c.tlvs)) [
        | inl ends ↦ rw ends tt
        | inr open_end ↦ rw open_end (end_tlv-IsValid, tt)
      ])

-- Two valid messages pack to the same bytes exactly when they are equal, but for the END_OF_MESSAGE
-- of no value that `Pack` adds to a message that does not end at one.
pub pack-eq_iff :
    (c d : Cmdu) → Cmdu.IsValid c → Cmdu.IsValid d → (pack c ≡ pack d) ↔ (closed c ≡ closed d)
pack-eq_iff c d v w = (
  λ p.
      bytes_of-injective (closed c) (closed d) (closed-IsValid c v) (closed-IsValid d w)
        (sym (wire-closed c) ∙ ok-injective (sym one ∙ p ∙ other) ∙ wire-closed d),
  λ e. one ∙ ap ok (wire-closed c ∙ ap bytes_of e ∙ sym (wire-closed d)) ∙ sym other,
)
  where
    one : pack c ≡ ok (wire c)
    one = pack-wire c v

    other : pack d ≡ ok (wire d)
    other = pack-wire d w

    ok-injective : ok (wire c) ≡ ok (wire d) → wire c ≡ wire d
    ok-injective e = cc
