-- ===== src/Parser/Outcomes.antt =====
-- `Parse` behind a header and complete TLVs: what comes of the bytes that follow.
use ieee.Prelude.{
  ℕ, suc, ◌+◌, ◌*◌, ◌≤◌, ◌<◌, ◌≡◌, refl, sym, ap, ◌∙◌, arith, ◌==◌, ==_iff, lt→ltb, length, All,
  IsByte, List, [], ◌∷◌, ◌++◌, append_assoc, append-nil, false, true,
}
use ieee.Result.{Result, ok, err, runtime_error, ◌>>=◌}
use ieee.Tlv
use ieee.Tlv.{Tlv}
use ieee.TlvTypes.{end_of_message}
use ieee.Cmdu.{Cmdu, ends_message}
use ieee.Cmdu.Vector.{push_back}
use ieee.Cmdu.Adding.{ends_message-push_back}
use ieee.Cmdu.Ending.{NotEnd, not-ends_message}
use ieee.Serializer.Wire.{wire_tlv, wire_tlvs}
use ieee.Parser.{read_tlv, read_tlvs, check_end, parse}
use ieee.Parser.Tokens.{read_tlv_lem}
use ieee.Parser.Loop.{read_tlvs-wire_tlv, still_open}
use ieee.Bytes.Reads.{more_rounds, le-more_rounds}
use ieee.Parser.Termination.{read_tlvs_rounds}
use ieee.Parser.Frame.{parse_lem, blank}

-- The loop takes one round for each of the complete TLVs.
read_tlvs-more_rounds :
    (ts : List Tlv) (tail : List ℕ) (fuel : ℕ) (c : Cmdu)
    → All Tlv.IsValid ts
    → All NotEnd ts
    → ends_message c.tlvs ≡ false
    → read_tlvs (more_rounds ts fuel) (wire_tlvs ts ++ tail) c
      ≡ read_tlvs fuel tail (record c { tlvs = c.tlvs ++ ts })
read_tlvs-more_rounds [] tail fuel c v n o =
    ap (λ (us : List Tlv). read_tlvs fuel tail (record c { tlvs = us })) (sym (append-nil c.tlvs))
read_tlvs-more_rounds (t ∷ ts) tail fuel c v n o =
    ap (λ (bs : List ℕ). read_tlvs (suc (more_rounds ts fuel)) bs c)
      (append_assoc (wire_tlv t) (wire_tlvs ts) tail)
    ∙ read_tlvs-wire_tlv t (wire_tlvs ts ++ tail) (more_rounds ts fuel) c v.0 o
    ∙ rw more (
        read_tlvs-more_rounds ts tail fuel (record c { tlvs = push_back c.tlvs t }) v.1 n.1
          (still_open t c more)
        ∙ ap (λ (us : List Tlv). read_tlvs fuel tail (record c { tlvs = us }))
            (append_assoc c.tlvs (t ∷ []) ts))
  where
    more : (t.type == end_of_message) ≡ false
    more = ground arith

-- `Parse` behind a header and complete TLVs is the loop on what follows them, and the check.
pub parse-Before :
    (header : List ℕ) (ts : List Tlv) (tail : List ℕ)
    → length header ≡ 8
    → All IsByte header
    → All Tlv.IsValid ts
    → All NotEnd ts
    → (c : Cmdu) × (fuel : ℕ) × (c.tlvs ≡ ts)
      × (parse (header ++ (wire_tlvs ts ++ tail)) ≡ (read_tlvs (suc fuel) tail c >>= check_end))
parse-Before (v ∷ r ∷ t₁ ∷ t₀ ∷ i₁ ∷ i₀ ∷ fragment ∷ flags ∷ []) ts tail size b valid n =
    let c : Cmdu = blank (t₁ * 256 + t₀) (i₁ * 256 + i₀) flags fragment [] in
    let rest : List ℕ = wire_tlvs ts ++ tail in
    (
      record c { tlvs = ts },
      length rest,
      refl,
      parse_lem v r t₁ t₀ i₁ i₀ fragment flags rest b.1.1.0 b.1.1.1.0 b.1.1.1.1.0 b.1.1.1.1.1.0
          ∙ ap (λ (m : Result Cmdu). m >>= check_end)
              ((read_tlvs_rounds (length rest) (more_rounds ts (suc (length rest))) rest c
                  (omega arith) (omega (arith, le-more_rounds ts (suc (length rest))))).0
                ∙ read_tlvs-more_rounds ts tail (suc (length rest)) c valid n
                    (not-ends_message [] tt)),
    )
parse-Before _ ts tail size b valid n = absurd (omega arith)

module _ (fuel : ℕ) (c : Cmdu) where
  abbrev pub outcome : List ℕ → Result Cmdu
  outcome tail = read_tlvs (suc fuel) tail c >>= check_end

  pub outcome_cut_header :
      (tail : List ℕ)
      → 1 ≤ length tail
      → length tail ≤ 2
      → outcome tail ≡ err (runtime_error "Incomplete TLV header found at end of buffer.")
  unfolding read_tlvs read_tlv
  outcome_cut_header (a ∷ []) h k = refl
  outcome_cut_header (a ∷ b ∷ []) h k = refl
  outcome_cut_header _ h k = absurd (omega arith)

  pub outcome_cut_value :
      (type high low : ℕ) (value : List ℕ)
      → IsByte high
      → IsByte low
      → length value < high * 256 + low
      → outcome (type ∷ high ∷ low ∷ value)
        ≡ err (runtime_error "Buffer ended prematurely while reading TLV value.")
  unfolding read_tlvs
  outcome_cut_value type high low value h l short =
      rw (read_tlv_lem type high low value h l, lt→ltb (length value) (high * 256 + low) short) refl

  pub outcome_no_end :
      All NotEnd c.tlvs
      → outcome [] ≡ err (runtime_error "CMDU does not terminate with END_OF_MESSAGE TLV.")
  unfolding read_tlvs check_end
  outcome_no_end n = rw (not-ends_message c.tlvs n) refl

  pub outcome_ended :
      (t : Tlv) (pad : List ℕ)
      → Tlv.IsValid t
      → t.type ≡ end_of_message
      → All NotEnd c.tlvs
      → outcome (wire_tlv t ++ pad) ≡ ok (record c { tlvs = push_back c.tlvs t })
  unfolding check_end
  outcome_ended t pad v e n =
      let is_end : (t.type == end_of_message) ≡ true = (==_iff t.type end_of_message).1 e in
      let read : read_tlvs (suc fuel) (wire_tlv t ++ pad) c
          ≡ ok (record c { tlvs = push_back c.tlvs t }) =
        read_tlvs-wire_tlv t pad fuel c v (not-ends_message c.tlvs n) ∙ rw is_end refl in
      ap (λ (m : Result Cmdu). m >>= check_end) read
      ∙ rw (ends_message-push_back c.tlvs t, is_end) refl
