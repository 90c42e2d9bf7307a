-- ===== src/Parser/Delivery.antt =====
-- A message that one side builds and packs, as the other side parses it.
use ieee.Prelude.{
  ℕ, ◌≡◌, refl, sym, ap, ◌∙◌, arith, IsByte, IsU16, All, List, [], ◌∷◌, ◌++◌, append_assoc,
  append-nil,
}
use ieee.Result.{ok, ◌>>=◌}
use ieee.Tlv
use ieee.Tlv.{Tlv}
use ieee.TlvTypes.{end_of_message}
use ieee.Cmdu
use ieee.Cmdu.{Cmdu, add_tlv, ends_message}
use ieee.Cmdu.Vector.{push_back}
use ieee.Cmdu.Adding.{add_tlv_closed, add_tlv-IsValid}
use ieee.Cmdu.Building.{add_tlvs, add_tlvs_open, add_tlvs-IsValid}
use ieee.Cmdu.Ending.{NotEnd, not-ends_message, end_tlv, up_to_end}
use ieee.Serializer.{pack}
use ieee.Parser.{parse}
use ieee.Parser.RoundTrip.{parse-pack}

up_to_end-append : (ts us : List Tlv) → All NotEnd ts → up_to_end (ts ++ us) ≡ ts ++ up_to_end us
up_to_end-append [] us n = refl
up_to_end-append (t ∷ ts) us n = ground (arith, up_to_end-append ts us n.1)

pub make-IsValid :
    (type id flags fragment_id : ℕ)
    → IsU16 type
    → IsU16 id
    → IsByte flags
    → IsByte fragment_id
    → Cmdu.IsValid (Cmdu.make type id flags fragment_id)
unfolding Cmdu.make
make-IsValid type id flags fragment_id a b c d = record {
  type_u16 = a;
  id_u16 = b;
  flags_byte = c;
  fragment_byte = d;
  tlvs_valid = tt;
}

-- A new message with header values in range, to which valid TLVs other than END_OF_MESSAGE were
-- added, arrives with its header, with exactly these TLVs in order and with an END_OF_MESSAGE
-- behind them, whatever padding the network added.
pub parse-add_tlvs :
    (type id flags fragment_id : ℕ) (ts : List Tlv) (pad : List ℕ)
    → IsU16 type
    → IsU16 id
    → IsByte flags
    → IsByte fragment_id
    → All Tlv.IsValid ts
    → All NotEnd ts
    → (pack (add_tlvs ts (Cmdu.make type id flags fragment_id)) >>= λ bytes. parse (bytes ++ pad))
      ≡ ok (record {
        type = type;
        id = id;
        flags = flags;
        fragment_id = fragment_id;
        tlvs = ts ++ (end_tlv ∷ []);
      })
parse-add_tlvs type id flags fragment_id ts pad a b c d v n =
    parse-pack _ pad (add_tlvs-IsValid ts new v (make-IsValid type id flags fragment_id a b c d))
    ∙ ap (λ (m : Cmdu). ok (record m { tlvs = up_to_end m.tlvs }))
        (add_tlvs_open ts new n (unfold Cmdu.make in not-ends_message [] tt))
    ∙ unfold Cmdu.make in
      ap (λ (us : List Tlv). ok (record new { tlvs = us }))
        (ap up_to_end (sym (append-nil ts)) ∙ up_to_end-append ts [] n)
  where
    new : Cmdu
    new = Cmdu.make type id flags fragment_id

-- Adding a second END_OF_MESSAGE to a valid message that ends at its only one puts the new one
-- before the old one, and the receiver does not see the old one.
pub parse-add_tlv_second_end :
    (c : Cmdu) (front : List Tlv) (e t : Tlv) (pad : List ℕ)
    → Cmdu.IsValid c
    → Tlv.IsValid t
    → c.tlvs ≡ push_back front e
    → All NotEnd front
    → e.type ≡ end_of_message
    → t.type ≡ end_of_message
    → ((add_tlv t c).tlvs ≡ front ++ (t ∷ e ∷ []))
      × ((pack (add_tlv t c) >>= λ bytes. parse (bytes ++ pad))
          ≡ ok (record c { tlvs = front ++ (t ∷ []) }))
parse-add_tlv_second_end c front e t pad vc vt p n he ht = (
  ap (λ (m : Cmdu). m.tlvs) added,
  parse-pack (add_tlv t c) pad (add_tlv-IsValid t c vt vc)
      ∙ ap (λ (m : Cmdu). ok (record m { tlvs = up_to_end m.tlvs })) added
      ∙ ap (λ (us : List Tlv). ok (record c { tlvs = us }))
          (up_to_end-append front (t ∷ e ∷ []) n ∙ rw ht),
)
  where
    added : add_tlv t c ≡ record c { tlvs = front ++ (t ∷ e ∷ []) }
    added =
        add_tlv_closed t e c front p he
        ∙ ap (λ (us : List Tlv). record c { tlvs = us }) (append_assoc front (t ∷ []) (e ∷ []))
