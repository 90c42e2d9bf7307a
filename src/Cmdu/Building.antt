-- ===== src/Cmdu/Building.antt =====
-- Messages that a caller builds by the constructor and a sequence of `AddTlv` calls.
use ieee.Prelude.{
  ℕ, ◌≡◌, refl, sym, ap, ◌∙◌, arith, All, List, [], ◌∷◌, ◌++◌, append_assoc, append-nil, false,
}
use ieee.Tlv
use ieee.Tlv.{Tlv}
use ieee.TlvTypes.{end_of_message}
use ieee.Cmdu
use ieee.Cmdu.{Cmdu, add_tlv, ends_message, IsValid}
use ieee.Cmdu.Vector.{push_back}
use ieee.Cmdu.Adding.{add_tlv_open, add_tlv_closed, add_tlv-IsValid, ends_message-push_back}
use ieee.Cmdu.Ending.{NotEnd, not-ends_message}

-- One `AddTlv` call for each TLV of the list, in order.
abbrev pub add_tlvs : List Tlv → Cmdu → Cmdu
add_tlvs [] c = c
add_tlvs (t ∷ ts) c = add_tlvs ts (add_tlv t c)

pub add_tlvs-IsValid :
    (ts : List Tlv) (c : Cmdu) → All Tlv.IsValid ts → IsValid c → IsValid (add_tlvs ts c)
add_tlvs-IsValid [] c vs v = v
add_tlvs-IsValid (t ∷ ts) c vs v =
    add_tlvs-IsValid ts (add_tlv t c) vs.1 (add_tlv-IsValid t c vs.0 v)

-- On a message without END_OF_MESSAGE the TLVs go behind those that are there.
pub add_tlvs_open :
    (ts : List Tlv) (c : Cmdu)
    → All NotEnd ts
    → ends_message c.tlvs ≡ false
    → add_tlvs ts c ≡ record c { tlvs = c.tlvs ++ ts }
add_tlvs_open [] c n o = ap (λ (us : List Tlv). record c { tlvs = us }) (sym (append-nil c.tlvs))
add_tlvs_open (t ∷ ts) c n o =
    ap (add_tlvs ts) (add_tlv_open t c o)
    ∙ add_tlvs_open ts (record c { tlvs = push_back c.tlvs t }) n.1
        (ends_message-push_back c.tlvs t ∙ ground arith)
    ∙ ap (λ (us : List Tlv). record c { tlvs = us }) (append_assoc c.tlvs (t ∷ []) ts)

-- On a message with END_OF_MESSAGE they go before it.
add_tlvs_closed :
    (ts : List Tlv) (front : List Tlv) (e : Tlv) (c : Cmdu)
    → e.type ≡ end_of_message
    → c.tlvs ≡ push_back front e
    → add_tlvs ts c ≡ record c { tlvs = push_back (front ++ ts) e }
add_tlvs_closed [] front e c h p =
    ap (λ (us : List Tlv). record c { tlvs = us })
      (p ∙ ap (λ (us : List Tlv). push_back us e) (sym (append-nil front)))
add_tlvs_closed (t ∷ ts) front e c h p =
    ap (add_tlvs ts) (add_tlv_closed t e c front p h)
    ∙ add_tlvs_closed ts (push_back front t) e (record c { tlvs = push_back (push_back front t) e })
        h refl
    ∙ ap (λ (us : List Tlv). record c { tlvs = push_back us e }) (append_assoc front (t ∷ []) ts)

add_tlvs-append :
    (xs ys : List Tlv) (c : Cmdu) → add_tlvs (xs ++ ys) c ≡ add_tlvs ys (add_tlvs xs c)
add_tlvs-append [] ys c = refl
add_tlvs-append (x ∷ xs) ys c = add_tlvs-append xs ys (add_tlv x c)

-- A new message to which one END_OF_MESSAGE is added, at any point of the sequence, has the other
-- TLVs in the order of their calls and the END_OF_MESSAGE last. What is added behind it may be
-- of any type.
add_tlvs-make :
    (type id flags fragment_id : ℕ) (xs ys : List Tlv) (e : Tlv)
    → All NotEnd xs
    → e.type ≡ end_of_message
    → add_tlvs (xs ++ (e ∷ ys)) (Cmdu.make type id flags fragment_id) ≡ record {
      type = type;
      id = id;
      flags = flags;
      fragment_id = fragment_id;
      tlvs = (xs ++ ys) ++ (e ∷ []);
    }
unfolding Cmdu.make
add_tlvs-make type id flags fragment_id xs ys e n h =
    add_tlvs-append xs (e ∷ ys) new
    ∙ ap (add_tlvs (e ∷ ys)) (add_tlvs_open xs new n (not-ends_message [] tt))
    ∙ ap (add_tlvs ys) (add_tlv_open e (record new { tlvs = xs }) (not-ends_message xs n))
    ∙ add_tlvs_closed ys xs e (record new { tlvs = push_back xs e }) h refl
  where
    new : Cmdu
    new = Cmdu.make type id flags fragment_id
