-- ===== src/Parser/Loop.antt =====
-- The loop over the TLVs: what it accepts, and that it accepts what was written.
use ieee.Prelude.{
  ℕ, zero, suc, ◌≤◌, ◌≡◌, refl, sym, ap, ◌∙◌, arith, ◌==◌, ==_iff, if◌then◌else◌, Bool-cases, inl,
  inr, ◌⊎◌, length, length-append, All, IsByte, List, [], ◌∷◌, ◌++◌, append_assoc, append-nil,
  false,
}
use ieee.Result.{ok, ◌>>=◌, Safely, Safely-bind, Safely-map}
use ieee.Tlv
use ieee.Tlv.{Tlv}
use ieee.TlvTypes.{end_of_message}
use ieee.Cmdu.{Cmdu, add_tlv, ends_message}
use ieee.Cmdu.Vector.{push_back}
use ieee.Cmdu.Adding.{add_tlv_open, ends_message-push_back}
use ieee.Cmdu.Ending.{NotEnd, EndsOnce}
use ieee.Serializer.Wire.{wire_tlv, wire_tlvs}
use ieee.Parser.{read_tlv, read_tlvs}
use ieee.Parser.Tokens.{read_tlv-wire_tlv, read_tlv-Safely}

-- The loop read `ts` off `ptr`: it stopped behind an END_OF_MESSAGE or at the end of the buffer.
pub record IsRead (ptr : List ℕ) (c c' : Cmdu) : Type 0 where
  pub ts : List Tlv
  pub pad : List ℕ
  pub consumed : ptr ≡ wire_tlvs ts ++ pad
  pub appended : c' ≡ record c { tlvs = c.tlvs ++ ts }
  pub valid : All Tlv.IsValid ts
  pub stopped : EndsOnce ts ⊎ (All NotEnd ts × (pad ≡ []))

read_tlvs_step :
    (fuel b : ℕ) (bs : List ℕ) (c : Cmdu)
    → read_tlvs (suc fuel) (b ∷ bs) c ≡ (
        read_tlv (b ∷ bs) >>= λ (tlv, ptr).
        if tlv.type == end_of_message
        then ok (add_tlv tlv c)
        else read_tlvs fuel ptr (add_tlv tlv c))
unfolding read_tlvs
read_tlvs_step fuel b bs c = refl

IsRead-cons :
    (t : Tlv) (ptr : List ℕ) (c c' : Cmdu)
    → Tlv.IsValid t
    → NotEnd t
    → IsRead ptr (record c { tlvs = push_back c.tlvs t }) c'
    → IsRead (wire_tlv t ++ ptr) c c'
IsRead-cons t ptr c c' v n r = record {
  ts = t ∷ r.ts;
  pad = r.pad;
  consumed =
      ap (λ (bs : List ℕ). wire_tlv t ++ bs) r.consumed
      ∙ sym (append_assoc (wire_tlv t) (wire_tlvs r.ts) r.pad);
  appended =
      r.appended
      ∙ ap (λ (ts : List Tlv). record c { tlvs = ts }) (append_assoc c.tlvs (t ∷ []) r.ts);
  valid = (v, r.valid);
  stopped = stops r.stopped;
}
  where
    stops :
        EndsOnce r.ts ⊎ (All NotEnd r.ts × (r.pad ≡ []))
        → EndsOnce (t ∷ r.ts) ⊎ (All NotEnd (t ∷ r.ts) × (r.pad ≡ []))
    stops (inl e) = inl (inr (n, e))
    stops (inr (a, e)) = inr ((n, a), e)

IsRead-last :
    (t : Tlv) (ptr : List ℕ) (c : Cmdu)
    → Tlv.IsValid t
    → t.type ≡ end_of_message
    → ends_message c.tlvs ≡ false
    → IsRead (wire_tlv t ++ ptr) c (add_tlv t c)
IsRead-last t ptr c v e o = record {
  ts = t ∷ [];
  pad = ptr;
  consumed = ap (λ (bs : List ℕ). bs ++ ptr) (sym (append-nil (wire_tlv t)));
  appended = add_tlv_open t c o;
  valid = (v, tt);
  stopped = inl (inl (e, refl));
}

IsRead-none : (c : Cmdu) → IsRead [] c c
IsRead-none c = record {
  ts = [];
  pad = [];
  consumed = refl;
  appended = ap (λ (ts : List Tlv). record c { tlvs = ts }) (sym (append-nil c.tlvs));
  valid = tt;
  stopped = inr (tt, refl);
}

pub still_open :
    (t : Tlv) (c : Cmdu)
    → (t.type == end_of_message) ≡ false
    → ends_message (push_back c.tlvs t) ≡ false
still_open t c more = ends_message-push_back c.tlvs t ∙ more

-- On bytes the loop never reads outside the buffer and never runs out of rounds.
pub read_tlvs-Safely :
    (fuel : ℕ) (ptr : List ℕ) (c : Cmdu)
    → length ptr ≤ fuel
    → All IsByte ptr
    → ends_message c.tlvs ≡ false
    → Safely (IsRead ptr c) (read_tlvs fuel ptr c)
read_tlvs-Safely fuel [] c h b o = unfold read_tlvs in IsRead-none c
read_tlvs-Safely zero (b ∷ bs) c h by o = absurd (omega arith)
read_tlvs-Safely (suc fuel) (b ∷ bs) c h by o = rw (read_tlvs_step fuel b bs c) (
    Safely-bind _ (IsRead (b ∷ bs) c) (read_tlv (b ∷ bs)) _ (read_tlv-Safely (b ∷ bs) by)
      λ (t, ptr) p. rw p.0 (elim (Bool-cases (t.type == end_of_message)) [
        | inl last ↦ rw last (IsRead-last t ptr c p.1 ((==_iff _ _).0 last) o)
        | inr more ↦
            rw (more, add_tlv_open t c o)
              (Safely-map _ _ _
                (read_tlvs-Safely fuel ptr (record c { tlvs = push_back c.tlvs t })
                  (omega (arith, ap length p.0, length-append t.value ptr)) p.2
                  (still_open t c more))
                λ c' r. IsRead-cons t ptr c c' p.1 (ground arith) r)
      ]))

pub read_tlvs-wire_tlv :
    (t : Tlv) (rest : List ℕ) (fuel : ℕ) (c : Cmdu)
    → Tlv.IsValid t
    → ends_message c.tlvs ≡ false
    → let c' : Cmdu = record c { tlvs = push_back c.tlvs t } in
      read_tlvs (suc fuel) (wire_tlv t ++ rest) c
      ≡ (if t.type == end_of_message then ok c' else read_tlvs fuel rest c')
read_tlvs-wire_tlv t rest fuel c v o =
    read_tlvs_step fuel t.type _ c ∙ rw (read_tlv-wire_tlv t rest v, add_tlv_open t c o)

-- TLVs in wire format up to an END_OF_MESSAGE are read back, whatever follows them.
pub read_tlvs-wire_tlvs :
    (ts : List Tlv) (pad : List ℕ) (fuel : ℕ) (c : Cmdu)
    → All Tlv.IsValid ts
    → EndsOnce ts
    → length (wire_tlvs ts) ≤ fuel
    → ends_message c.tlvs ≡ false
    → read_tlvs fuel (wire_tlvs ts ++ pad) c ≡ ok (record c { tlvs = c.tlvs ++ ts })
read_tlvs-wire_tlvs [] pad fuel c v e h o = absurd e
read_tlvs-wire_tlvs (t ∷ ts) pad zero c v e h o = absurd (omega arith)
read_tlvs-wire_tlvs (t ∷ ts) pad (suc fuel) c v (inl (e, none_left)) h o =
    ap (λ (bs : List ℕ). read_tlvs (suc fuel) bs c) (append_assoc (wire_tlv t) (wire_tlvs ts) pad)
    ∙ read_tlvs-wire_tlv t (wire_tlvs ts ++ pad) fuel c v.0 o
    ∙ rw ((==_iff t.type end_of_message).1 e, none_left)
read_tlvs-wire_tlvs (t ∷ ts) pad (suc fuel) c v (inr (n, e)) h o =
    ap (λ (bs : List ℕ). read_tlvs (suc fuel) bs c) (append_assoc (wire_tlv t) (wire_tlvs ts) pad)
    ∙ read_tlvs-wire_tlv t (wire_tlvs ts ++ pad) fuel c v.0 o
    ∙ rw more (
        read_tlvs-wire_tlvs ts pad fuel (record c { tlvs = push_back c.tlvs t }) v.1 e
          (omega (arith, length-append t.value (wire_tlvs ts))) (still_open t c more)
        ∙ ap (λ (us : List Tlv). ok (record c { tlvs = us })) (append_assoc c.tlvs (t ∷ []) ts))
  where
    more : (t.type == end_of_message) ≡ false
    more = ground arith
