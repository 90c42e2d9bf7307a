-- ===== src/Parser/Frame.antt =====
-- Which buffers `Parse` accepts, and with what result.
use ieee.Prelude.{
  ℕ, ◌+◌, ◌*◌, ◌/◌, ◌%◌, ◌≤◌, ◌<◌, ◌≡◌, ap, ◌∙◌, arith, ◌↔◌, le→ltb, inl, inr, length,
  length-append, All, All-take, IsByte, List, [], ◌∷◌, ◌++◌,
}
use ieee.Result.{ok, ◌>>=◌, Safely, Safely-bind, Safely-ok}
use ieee.Bytes.{fetch}
use ieee.Tlv
use ieee.Tlv.{Tlv}
use ieee.Cmdu
use ieee.Cmdu.{Cmdu, ends_message}
use ieee.Cmdu.Ending.{EndsOnce, EndsOnce-ends_message, not-ends_message}
use ieee.Serializer.Wire.{wire_fields, wire_tlvs}
use ieee.Parser.{read_uint8, read_header, read_tlvs, check_end, parse}
use ieee.Parser.Tokens.{read_uint16_lem}
use ieee.Parser.Loop.{IsRead, read_tlvs-Safely, read_tlvs-wire_tlvs}

-- `buffer` is the message `c` in wire format, with any version and reserved byte, its TLVs ending
-- at the first END_OF_MESSAGE, and any padding behind.
pub record IsFrame (buffer : List ℕ) (c : Cmdu) : Type 0 where
  pub version : ℕ
  pub reserved : ℕ
  pub pad : List ℕ
  pub layout : buffer ≡ version ∷ reserved ∷ (wire_fields c ++ (wire_tlvs c.tlvs ++ pad))
  pub valid : Cmdu.IsValid c
  pub ends : EndsOnce c.tlvs

abbrev pub blank : (type id flags fragment_id : ℕ) → List Tlv → Cmdu
blank type id flags fragment_id tlvs = record {
  type = type;
  id = id;
  flags = flags;
  fragment_id = fragment_id;
  tlvs = tlvs;
}

parse_long :
    (buffer : List ℕ)
    → 8 ≤ length buffer
    → parse buffer ≡ (read_header buffer >>= λ (c, ptr). read_tlvs (length ptr) ptr c >>= check_end)
unfolding parse
parse_long buffer h = rw (le→ltb (length buffer) 8 h)

read_header_lem :
    (v r t₁ t₀ i₁ i₀ fragment flags : ℕ) (rest : List ℕ)
    → IsByte t₁
    → IsByte t₀
    → IsByte i₁
    → IsByte i₀
    → read_header (v ∷ r ∷ t₁ ∷ t₀ ∷ i₁ ∷ i₀ ∷ fragment ∷ flags ∷ rest)
      ≡ ok (blank (t₁ * 256 + t₀) (i₁ * 256 + i₀) flags fragment [], rest)
unfolding read_header read_uint8 fetch Cmdu.make
read_header_lem v r t₁ t₀ i₁ i₀ fragment flags rest a b c d = rw (
  read_uint16_lem t₁ t₀ (i₁ ∷ i₀ ∷ fragment ∷ flags ∷ rest) a b,
  read_uint16_lem i₁ i₀ (fragment ∷ flags ∷ rest) c d,
)

-- `Parse` behind the eight bytes of the header.
pub parse_lem :
    (v r t₁ t₀ i₁ i₀ fragment flags : ℕ) (rest : List ℕ)
    → IsByte t₁
    → IsByte t₀
    → IsByte i₁
    → IsByte i₀
    → parse (v ∷ r ∷ t₁ ∷ t₀ ∷ i₁ ∷ i₀ ∷ fragment ∷ flags ∷ rest) ≡ (
        read_tlvs (length rest) rest (blank (t₁ * 256 + t₀) (i₁ * 256 + i₀) flags fragment [])
        >>= check_end)
parse_lem v r t₁ t₀ i₁ i₀ fragment flags rest a b c d =
    parse_long _ (omega arith) ∙ rw (read_header_lem v r t₁ t₀ i₁ i₀ fragment flags rest a b c d)

check_end-ok : (c : Cmdu) → EndsOnce c.tlvs → check_end c ≡ ok c
unfolding check_end
check_end-ok c e = rw (EndsOnce-ends_message c.tlvs e)

pub IsFrame-of_bytes :
    (v r t₁ t₀ i₁ i₀ fragment flags : ℕ) (pad : List ℕ) (ts : List Tlv)
    → All IsByte (t₁ ∷ t₀ ∷ i₁ ∷ i₀ ∷ fragment ∷ flags ∷ [])
    → All Tlv.IsValid ts
    → EndsOnce ts
    → IsFrame
        (v ∷ r ∷ t₁ ∷ t₀ ∷ i₁ ∷ i₀ ∷ fragment ∷ flags ∷ (wire_tlvs ts ++ pad))
        (blank (t₁ * 256 + t₀) (i₁ * 256 + i₀) flags fragment ts)
IsFrame-of_bytes v r t₁ t₀ i₁ i₀ fragment flags pad ts h valid e = record {
  version = v;
  reserved = r;
  pad = pad;
  layout = rw (upper t₁ t₀ h.1.0, lower t₁ t₀ h.1.0, upper i₁ i₀ h.1.1.1.0, lower i₁ i₀ h.1.1.1.0);
  valid = record {
    type_u16 = omega arith;
    id_u16 = omega arith;
    flags_byte = omega arith;
    fragment_byte = omega arith;
    tlvs_valid = valid;
  };
  ends = e;
}
  where
    upper : (a b : ℕ) → b < 256 → (a * 256 + b) / 256 ≡ a
    upper a b q = omega arith

    lower : (a b : ℕ) → b < 256 → (a * 256 + b) % 256 ≡ b
    lower a b q = omega arith

check_end-Safely :
    (v r t₁ t₀ i₁ i₀ fragment flags : ℕ) (rest : List ℕ) (c : Cmdu)
    → All IsByte (t₁ ∷ t₀ ∷ i₁ ∷ i₀ ∷ fragment ∷ flags ∷ [])
    → IsRead rest (blank (t₁ * 256 + t₀) (i₁ * 256 + i₀) flags fragment []) c
    → Safely (IsFrame (v ∷ r ∷ t₁ ∷ t₀ ∷ i₁ ∷ i₀ ∷ fragment ∷ flags ∷ rest)) (check_end c)
check_end-Safely v r t₁ t₀ i₁ i₀ fragment flags rest c h read = elim read.stopped [
  | inl e ↦
      rw (read.appended, check_end-ok (blank _ _ flags fragment read.ts) e, read.consumed)
        (IsFrame-of_bytes v r t₁ t₀ i₁ i₀ fragment flags read.pad read.ts h read.valid e)
  | inr (n, _) ↦ rw (read.appended) (unfold check_end in rw (not-ends_message read.ts n) tt)
]

-- On bytes `Parse` never reads outside the buffer and its loop ends: it returns a message of
-- which the buffer is a frame, or throws a runtime_error and nothing else.
pub parse-Safely : (buffer : List ℕ) → All IsByte buffer → Safely (IsFrame buffer) (parse buffer)
parse-Safely (v ∷ r ∷ t₁ ∷ t₀ ∷ i₁ ∷ i₀ ∷ fragment ∷ flags ∷ rest) h =
    rw (parse_lem v r t₁ t₀ i₁ i₀ fragment flags rest h.1.1.0 h.1.1.1.0 h.1.1.1.1.0 h.1.1.1.1.1.0) (
      Safely-bind _ _ _ check_end
        (read_tlvs-Safely (length rest) rest _ (omega arith) h.1.1.1.1.1.1.1.1
          (not-ends_message [] tt))
        λ c read.
          check_end-Safely v r t₁ t₀ i₁ i₀ fragment flags rest c
            (All-take IsByte 6 (t₁ ∷ t₀ ∷ i₁ ∷ i₀ ∷ fragment ∷ flags ∷ rest) h.1.1) read)
parse-Safely _ h = unfold parse in tt

pub parse_frame : (buffer : List ℕ) (c : Cmdu) → IsFrame buffer c → parse buffer ≡ ok c
parse_frame buffer c f =
    ap parse f.layout
    ∙ parse_lem f.version f.reserved (c.type / 256) (c.type % 256) (c.id / 256) (c.id % 256)
        c.fragment_id c.flags (wire_tlvs c.tlvs ++ f.pad) (bound c.type f.valid.type_u16)
        (omega arith) (bound c.id f.valid.id_u16) (omega arith)
    ∙ rw
        (
          whole c.type,
          whole c.id,
          read_tlvs-wire_tlvs c.tlvs f.pad (length (wire_tlvs c.tlvs ++ f.pad))
              (blank c.type c.id c.flags c.fragment_id []) f.valid.tlvs_valid f.ends
              (omega (arith, length-append (wire_tlvs c.tlvs) f.pad)) (not-ends_message [] tt),
        )
        (check_end-ok c f.ends)
  where
    bound : (n : ℕ) → n < 65536 → n / 256 < 256
    bound n h = omega arith

    whole : (n : ℕ) → n / 256 * 256 + n % 256 ≡ n
    whole n = omega arith

-- A buffer of bytes parses to a message exactly when it is a frame of that message.
pub parse-eq-ok_iff :
    (buffer : List ℕ) (c : Cmdu) → All IsByte buffer → (parse buffer ≡ ok c) ↔ IsFrame buffer c
parse-eq-ok_iff buffer c h =
    (Safely-ok _ (parse buffer) (parse-Safely buffer h), parse_frame buffer c)
