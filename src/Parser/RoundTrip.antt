-- ===== src/Parser/RoundTrip.antt =====
-- `Pack` and `Parse` together.
use ieee.Prelude.{
  ℕ, ◌≡◌, ◌≢◌, refl, sym, subst, ap, ◌∙◌, arith, ◌==◌, Bool-cases, inl, inr, length, length-append,
  All, All-append_left, drop, IsByte, List, [], ◌∷◌, ◌++◌, append_assoc, append-nil,
}
use ieee.Result.{ok, ◌>>=◌}
use ieee.Tlv
use ieee.Tlv.{Tlv}
use ieee.TlvTypes.{end_of_message}
use ieee.Cmdu
use ieee.Cmdu.{Cmdu, ends_message}
use ieee.Cmdu.Ending.{
  EndsOnce, end_tlv, up_to_end, up_to_end-EndsOnce, up_to_end_of_EndsOnce, EndsOnce-ends_message,
  ends_message_tail,
}
use ieee.Serializer.{pack}
use ieee.Serializer.Wire.{wire, wire_fields, wire_tlv, wire_tlvs, closing, pack-wire, wire-IsByte}
use ieee.Parser.{parse}
use ieee.Parser.Frame.{IsFrame, parse_frame, parse-eq-ok_iff}

pub end_tlv-IsValid : Tlv.IsValid end_tlv
end_tlv-IsValid = omega arith

up_to_end-IsValid : (ts : List Tlv) → All Tlv.IsValid ts → All Tlv.IsValid (up_to_end ts)
up_to_end-IsValid [] v = (end_tlv-IsValid, tt)
up_to_end-IsValid (t ∷ ts) v = elim (Bool-cases (t.type == end_of_message)) [
  | inl e ↦ rw e (v.0, tt)
  | inr e ↦ rw e (v.0, up_to_end-IsValid ts v.1)
]

-- What `Pack` writes for the TLVs begins with those up to the first END_OF_MESSAGE.
closing-up_to_end :
    (ts : List Tlv) (pad : List ℕ)
    → (rest : List ℕ) × (wire_tlvs ts ++ (wire_tlvs (closing ts) ++ pad)
        ≡ wire_tlvs (up_to_end ts) ++ rest)
closing-up_to_end [] pad = (pad, unfold ends_message in refl)
closing-up_to_end (t ∷ ts) pad = elim (Bool-cases (t.type == end_of_message)) [
  | inl e ↦ rw e (
    wire_tlvs ts ++ (wire_tlvs (closing (t ∷ ts)) ++ pad),
    append_assoc (wire_tlv t) (wire_tlvs ts) _
        ∙ ap (λ (bs : List ℕ). bs ++ (wire_tlvs ts ++ (wire_tlvs (closing (t ∷ ts)) ++ pad)))
            (sym (append-nil (wire_tlv t))),
  )
  | inr e ↦
      let (rest, same) = closing-up_to_end ts pad in
      rw (e, ends_message_tail t ts e)
        (
          rest,
          append_assoc (wire_tlv t) (wire_tlvs ts) _
              ∙ ap (λ (bs : List ℕ). wire_tlv t ++ bs) same
              ∙ sym (append_assoc (wire_tlv t) (wire_tlvs (up_to_end ts)) rest),
        )
]

-- For a valid message, `Parse` reads what `Pack` wrote, with any padding behind it, as the same
-- header fields and the TLVs up to and with the first END_OF_MESSAGE, or with one added if there
-- was none.
pub parse-pack :
    (c : Cmdu) (pad : List ℕ)
    → Cmdu.IsValid c
    → (pack c >>= λ bytes. parse (bytes ++ pad)) ≡ ok (record c { tlvs = up_to_end c.tlvs })
parse-pack c pad v = rw (pack-wire c v) (parse_frame (wire c ++ pad) _ frame)
  where
    split :
        (rest : List ℕ) × (wire_tlvs c.tlvs ++ (wire_tlvs (closing c.tlvs) ++ pad)
          ≡ wire_tlvs (up_to_end c.tlvs) ++ rest)
    split = closing-up_to_end c.tlvs pad

    frame : IsFrame (wire c ++ pad) (record c { tlvs = up_to_end c.tlvs })
    frame = record {
      version = 0;
      reserved = 0;
      pad = split.0;
      layout =
          ap (λ (bs : List ℕ). 0 ∷ 0 ∷ (wire_fields c ++ bs))
            (append_assoc (wire_tlvs c.tlvs) (wire_tlvs (closing c.tlvs)) pad ∙ split.1);
      valid = record {
        type_u16 = v.type_u16;
        id_u16 = v.id_u16;
        flags_byte = v.flags_byte;
        fragment_byte = v.fragment_byte;
        tlvs_valid = up_to_end-IsValid c.tlvs v.tlvs_valid;
      };
      ends = up_to_end-EndsOnce c.tlvs;
    }

parse-pack_canonical :
    (c : Cmdu) (pad : List ℕ)
    → Cmdu.IsValid c
    → EndsOnce c.tlvs
    → (pack c >>= λ bytes. parse (bytes ++ pad)) ≡ ok c
parse-pack_canonical c pad v e =
    parse-pack c pad v
    ∙ ap (λ (ts : List Tlv). ok (record c { tlvs = ts })) (up_to_end_of_EndsOnce c.tlvs e)

-- Two valid messages that end at their only END_OF_MESSAGE pack to the same bytes only if they
-- are equal.
pack-injective :
    (c d : Cmdu)
    → Cmdu.IsValid c
    → Cmdu.IsValid d
    → EndsOnce c.tlvs
    → EndsOnce d.tlvs
    → pack c ≡ pack d
    → c ≡ d
pack-injective c d vc vd ec ed p =
    let one = rw p at (parse-pack_canonical c [] vc ec) in cc (one, parse-pack_canonical d [] vd ed)

pack_canonical :
    (c : Cmdu)
    → Cmdu.IsValid c
    → EndsOnce c.tlvs
    → pack c ≡ ok (0 ∷ 0 ∷ (wire_fields c ++ wire_tlvs c.tlvs))
pack_canonical c v e =
    pack-wire c v ∙ rw (EndsOnce-ends_message c.tlvs e, append-nil (wire_tlvs c.tlvs))

-- Whatever `Parse` accepted of a buffer of bytes is packed again as the bytes it was read from, with version and
-- reserved byte 0 and without the padding.
pub pack-parse :
    (v r : ℕ) (rest : List ℕ) (c : Cmdu)
    → All IsByte (v ∷ r ∷ rest)
    → parse (v ∷ r ∷ rest) ≡ ok c
    → (bytes : List ℕ) × (pad : List ℕ) × (pack c ≡ ok (0 ∷ 0 ∷ bytes)) × (rest ≡ bytes ++ pad)
pack-parse v r rest c h e =
    let f : IsFrame (v ∷ r ∷ rest) c = (parse-eq-ok_iff (v ∷ r ∷ rest) c h).0 e in
    (
      wire_fields c ++ wire_tlvs c.tlvs,
      f.pad,
      pack_canonical c f.valid f.ends,
      ap (drop 2) f.layout
          ∙ ap (λ (bs : List ℕ). bs) (sym (append_assoc (wire_fields c) (wire_tlvs c.tlvs) f.pad)),
    )

longer-IsFrame : (front more : List ℕ) (d : Cmdu) → IsFrame front d → IsFrame (front ++ more) d
longer-IsFrame front more d f = record {
  version = f.version;
  reserved = f.reserved;
  pad = f.pad ++ more;
  layout =
      ap (λ (bs : List ℕ). bs ++ more) f.layout
      ∙ ap (λ (bs : List ℕ). f.version ∷ f.reserved ∷ (wire_fields d ++ bs))
          (append_assoc (wire_tlvs d.tlvs) f.pad more);
  valid = f.valid;
  ends = f.ends;
}

-- No proper prefix of a packed message is accepted, if the message is valid and ends at its only
-- END_OF_MESSAGE.
pub parse_truncated :
    (c d : Cmdu) (front back : List ℕ) (x : ℕ)
    → Cmdu.IsValid c
    → EndsOnce c.tlvs
    → pack c ≡ ok (front ++ (x ∷ back))
    → parse front ≢ ok d
parse_truncated c d front back x v e p q = omega (
  arith,
  ap length written,
  ap length frame.layout,
  ap (λ (m : Cmdu). length (wire_tlvs m.tlvs)) same,
  length-append front (x ∷ back),
  length-append (wire_tlvs d.tlvs) frame.pad,
)
  where
    whole : wire c ≡ front ++ (x ∷ back)
    whole = cc (pack-wire c v)

    bytes : All IsByte front
    bytes = All-append_left IsByte front (x ∷ back) (subst (All IsByte) whole (wire-IsByte c v))

    frame : IsFrame front d
    frame = (parse-eq-ok_iff front d bytes).0 q

    same : c ≡ d
    same =
        let one = rw p at (parse-pack_canonical c [] v e) in
        let longer =
          longer-IsFrame (front ++ (x ∷ back)) [] d (longer-IsFrame front (x ∷ back) d frame) in
        cc (one, parse_frame ((front ++ (x ∷ back)) ++ []) d longer)

    written : front ++ (x ∷ back) ≡ 0 ∷ 0 ∷ (wire_fields c ++ wire_tlvs c.tlvs)
    written = cc (pack_canonical c v e)
