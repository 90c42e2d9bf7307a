-- ===== src/Parser/Errors.antt =====
-- Which exception `Parse` throws at which buffer.
use ieee.Prelude.{
  String, ℕ, ◌+◌, ◌*◌, ◌≤◌, ◌<◌, ◌≡◌, ◌↔◌, ◌⊎◌, refl, sym, ap, subst, ◌∙◌, arith, ltb, lt→ltb,
  Bool-cases, inl, inr, length, length-take, take, drop, take-append-drop, All, All-drop, IsByte,
  List, [], ◌∷◌, ◌++◌, All-append_left, All-append_right,
}
use ieee.Result.{same_error, Error, ok, err, runtime_error}
use ieee.Tlv
use ieee.Tlv.{Tlv}
use ieee.Cmdu.{Cmdu}
use ieee.Cmdu.Ending.{NotEnd}
use ieee.Serializer.Wire.{wire_tlvs}
use ieee.Parser.{parse}
use ieee.Parser.Scan.{Scan, Tail, ended, nothing, value_cut, scan}
use ieee.Parser.Outcomes.{
  parse-Before, outcome, outcome_cut_header, outcome_cut_value, outcome_no_end, outcome_ended,
}

-- The buffer is eight bytes and complete TLVs, none of them an END_OF_MESSAGE, before `tail`.
pub record Before (buffer tail : List ℕ) : Type 0 where
  pub header : List ℕ
  pub ts : List Tlv
  pub layout : buffer ≡ header ++ (wire_tlvs ts ++ tail)
  pub size : length header ≡ 8
  pub valid : All Tlv.IsValid ts
  pub not_end : All NotEnd ts

-- What is wrong with a buffer, and what the exception says.
pub data IsMalformed (buffer : List ℕ) : String → Type 0 where
  no_header :
      length buffer < 8
      → IsMalformed buffer "Buffer size is smaller than the minimum CMDU header size."
  no_end : Before buffer [] → IsMalformed buffer "CMDU does not terminate with END_OF_MESSAGE TLV."
  cut_header :
      (tail : List ℕ)
      → Before buffer tail
      → 1 ≤ length tail
      → length tail ≤ 2
      → IsMalformed buffer "Incomplete TLV header found at end of buffer."
  cut_value :
      (type high low : ℕ) (value : List ℕ)
      → Before buffer (type ∷ high ∷ low ∷ value)
      → length value < high * 256 + low
      → IsMalformed buffer "Buffer ended prematurely while reading TLV value."

parse-of_Before :
    (buffer tail : List ℕ)
    → All IsByte buffer
    → Before buffer tail
    → (c : Cmdu) × (fuel : ℕ) × All NotEnd c.tlvs
      × All IsByte tail
      × (parse buffer ≡ outcome fuel c tail)
parse-of_Before buffer tail b p =
    let all : All IsByte (p.header ++ (wire_tlvs p.ts ++ tail)) = subst (All IsByte) p.layout b in
    let (c, fuel, held, same) =
      parse-Before p.header p.ts tail p.size (All-append_left IsByte p.header _ all) p.valid
        p.not_end in
    (
      c,
      fuel,
      subst (All NotEnd) (sym held) p.not_end,
      All-append_right IsByte (wire_tlvs p.ts) tail (All-append_right IsByte p.header _ all),
      ap parse p.layout ∙ same,
    )

-- A buffer of bytes with something wrong is refused, with the exception for it.
pub parse_malformed :
    (buffer : List ℕ) (what : String)
    → All IsByte buffer
    → IsMalformed buffer what
    → parse buffer ≡ err (runtime_error what)
parse_malformed buffer _ b (no_header short) =
    unfold parse in rw (lt→ltb (length buffer) 8 short) refl
parse_malformed buffer _ b (no_end p) =
    let (c, fuel, n, bytes, same) = parse-of_Before buffer [] b p in same ∙ outcome_no_end fuel c n
parse_malformed buffer _ b (cut_header tail p low high) =
    let (c, fuel, n, bytes, same) = parse-of_Before buffer tail b p in
    same ∙ outcome_cut_header fuel c tail low high
parse_malformed buffer _ b (cut_value type high low value p short) =
    let (c, fuel, n, bytes, same) = parse-of_Before buffer (type ∷ high ∷ low ∷ value) b p in
    same ∙ outcome_cut_value fuel c type high low value bytes.1.0 bytes.1.1.0 short

-- What a buffer with a header is, by what follows its complete TLVs.
parse-cases_of :
    (buffer tail : List ℕ)
    → All IsByte buffer
    → Before buffer tail
    → Tail tail
    → ((c : Cmdu) × (parse buffer ≡ ok c)) ⊎ ((what : String) × IsMalformed buffer what)
parse-cases_of buffer tail b p (ended t pad e v last) =
    let (c, fuel, n, bytes, same) = parse-of_Before buffer tail b p in
    inl (_, same ∙ ap (outcome fuel c) e ∙ outcome_ended fuel c t pad v last n)
parse-cases_of buffer tail b p (nothing e) = inr (_, no_end (subst (Before buffer) e p))
parse-cases_of buffer tail b p (Tail.header_cut low high) = inr (_, cut_header tail p low high)
parse-cases_of buffer tail b p (value_cut type high low value e short) =
    inr (_, cut_value type high low value (subst (Before buffer) e p) short)

pub parse-cases :
    (buffer : List ℕ)
    → All IsByte buffer
    → ((c : Cmdu) × (parse buffer ≡ ok c)) ⊎ ((what : String) × IsMalformed buffer what)
parse-cases buffer b = elim (Bool-cases (ltb (length buffer) 8)) [
  | inl short ↦ inr (_, no_header (ground arith))
  | inr enough ↦
      let body : Scan (drop 8 buffer) =
        scan (length (drop 8 buffer)) (drop 8 buffer) (omega arith) (All-drop IsByte 8 buffer b) in
      let p : Before buffer body.tail = record {
        header = take 8 buffer;
        ts = body.ts;
        layout =
            sym (take-append-drop 8 buffer) ∙ ap (λ (bs : List ℕ). take 8 buffer ++ bs) body.layout;
        size = length-take 8 buffer (ground arith);
        valid = body.valid;
        not_end = body.not_end;
      } in
      parse-cases_of buffer body.tail b p body.rest
]

-- A buffer of bytes is refused exactly when something is wrong with it, and what is wrong decides
-- the exception, which is always a runtime_error: there are less than eight bytes, or behind the
-- header and complete TLVs, none of them an END_OF_MESSAGE, there is nothing, one or two bytes, or
-- the header of a TLV and less than its length.
pub parse-eq-err_iff :
    (buffer : List ℕ) (e : Error)
    → All IsByte buffer
    → (parse buffer ≡ err e)
      ↔ ((what : String) × (e ≡ runtime_error what) × IsMalformed buffer what)
parse-eq-err_iff buffer e b = (
  λ thrown. elim (parse-cases buffer b) [
    | inl (c, parsed) ↦ cc
    | inr (what, wrong) ↦
        (what, same_error (sym thrown ∙ parse_malformed buffer what b wrong), wrong)
  ],
  λ (what, same, wrong). parse_malformed buffer what b wrong ∙ ap err (sym same),
)
