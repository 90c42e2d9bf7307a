-- ===== src/Cmdu/Adding.antt =====
-- `AddTlv`: a message is its body and, once one was added, the END_OF_MESSAGE behind the body.
use ieee.Prelude.{
  ◌≡◌, ◌⊎◌, refl, sym, subst, ap, ◌∙◌, arith, ◌==◌, ==_iff, if◌then◌else◌, All, All-append,
  All-append_left, List, [], ◌∷◌, Option, none, some, false, Bool-cases, inl, inr,
}
use ieee.Tlv
use ieee.Tlv.{Tlv, get_type}
use ieee.TlvTypes.{end_of_message}
use ieee.Cmdu.{Cmdu, add_tlv, ends_message, IsValid}
use ieee.Cmdu.Vector.{
  back?, pop_back, push_back, back?-push_back, pop_back-push_back, FromBack, empty, snoc, from_back,
}

pub ends_message-push_back :
    (ts : List Tlv) (t : Tlv) → ends_message (push_back ts t) ≡ (t.type == end_of_message)
unfolding ends_message
ends_message-push_back ts t = rw (back?-push_back ts t, ends_message)

ends_message_split :
    (ts : List Tlv)
    → FromBack ts
    → (ends_message ts ≡ false)
      ⊎ ((front : List Tlv) × (e : Tlv) × (ts ≡ push_back front e) × (e.type ≡ end_of_message))
ends_message_split ts empty = inl (unfold ends_message in refl)
ends_message_split ts (snoc front e) = elim (Bool-cases (e.type == end_of_message)) [
  | inl last ↦ inr (front, e, refl, (==_iff _ _).0 last)
  | inr other ↦ inl (ends_message-push_back front e ∙ other)
]

-- A message has no END_OF_MESSAGE at its end, or it is a front and an END_OF_MESSAGE.
pub ends_message_cases :
    (ts : List Tlv)
    → (ends_message ts ≡ false)
      ⊎ ((front : List Tlv) × (e : Tlv) × (ts ≡ push_back front e) × (e.type ≡ end_of_message))
ends_message_cases ts = ends_message_split ts (from_back ts)

-- The two branches of `AddTlv`, by what the last TLV is.
pub add_tlv_open :
    (t : Tlv) (c : Cmdu)
    → ends_message c.tlvs ≡ false
    → add_tlv t c ≡ record c { tlvs = push_back c.tlvs t }
unfolding add_tlv
add_tlv_open t c h = ground arith

pub add_tlv_closed :
    (t e : Tlv) (c : Cmdu) (body : List Tlv)
    → c.tlvs ≡ push_back body e
    → e.type ≡ end_of_message
    → add_tlv t c ≡ record c { tlvs = push_back (push_back body t) e }
unfolding add_tlv get_type
add_tlv_closed t e c body p q = ground (arith, back?-push_back body e, pop_back-push_back body e)

-- The abstract view: the body, and the END_OF_MESSAGE behind it if there is one.
abbrev pub body : List Tlv → List Tlv
body ts = if ends_message ts then pop_back ts else ts

abbrev pub terminator : List Tlv → Option Tlv
terminator ts = if ends_message ts then back? ts else none

-- `AddTlv` on the view: the new TLV goes behind the body, except that an END_OF_MESSAGE on a
-- message without one becomes its terminator.
abbrev pub extend : Tlv → List Tlv × Option Tlv → List Tlv × Option Tlv
extend t (ts, some e) = (push_back ts t, some e)
extend t (ts, none) = if t.type == end_of_message then (ts, some t) else (push_back ts t, none)

view_push_back :
    (ts : List Tlv) (t : Tlv)
    → ◌≡◌ {A = List Tlv × Option Tlv}
        (body (push_back ts t), terminator (push_back ts t))
        (if t.type == end_of_message then (ts, some t) else (push_back ts t, none))
view_push_back ts t =
    ground (arith, ends_message-push_back ts t, back?-push_back ts t, pop_back-push_back ts t)

view_closed :
    (front : List Tlv) (e : Tlv)
    → e.type ≡ end_of_message
    → ◌≡◌ {A = List Tlv × Option Tlv}
        (body (push_back front e), terminator (push_back front e))
        (front, some e)
view_closed front e h = view_push_back front e ∙ rw ((==_iff _ _).1 h)

-- `AddTlv` is `extend` on the TLVs before a final END_OF_MESSAGE and that END_OF_MESSAGE, if there
-- is one: the new TLV goes behind the former and the latter stays. The other fields stay.
pub add_tlv-extend :
    (t : Tlv) (c : Cmdu)
    → let c' = add_tlv t c in
      ((body c'.tlvs, terminator c'.tlvs) ≡ extend t (body c.tlvs, terminator c.tlvs))
      × (c' ≡ record c { tlvs = c'.tlvs })
add_tlv-extend t c = elim (ends_message_cases c.tlvs) [
  | inl o ↦ rw (add_tlv_open t c o) (view_push_back c.tlvs t ∙ rw o, refl)
  | inr (front, e, p, h) ↦
      let old : ◌≡◌ {A = List Tlv × Option Tlv} (front, some e) (body c.tlvs, terminator c.tlvs) =
        rw p (sym (view_closed front e h)) in
      rw (add_tlv_closed t e c front p h)
        (view_closed (push_back front t) e h ∙ ap (extend t) old, refl)
]

pub All-push_back :
    (P : Tlv → Type 0) (ts : List Tlv) (t : Tlv) → All P ts → P t → All P (push_back ts t)
All-push_back P ts t h p = All-append P ts (t ∷ []) h (p, tt)

All-back : (P : Tlv → Type 0) (ts : List Tlv) (t : Tlv) → All P (push_back ts t) → P t
All-back P [] t h = h.0
All-back P (u ∷ ts) t h = All-back P ts t h.1

-- `AddTlv` of a valid TLV keeps a valid message valid.
pub add_tlv-IsValid : (t : Tlv) (c : Cmdu) → Tlv.IsValid t → IsValid c → IsValid (add_tlv t c)
add_tlv-IsValid t c vt vc = elim (ends_message_cases c.tlvs) [
  | inl o ↦
      rw (add_tlv_open t c o)
        (with_tlvs (push_back c.tlvs t) (All-push_back Tlv.IsValid c.tlvs t vc.tlvs_valid vt))
  | inr (front, e, p, h) ↦
      let old : All Tlv.IsValid (push_back front e) = subst (All Tlv.IsValid) p vc.tlvs_valid in
      rw (add_tlv_closed t e c front p h) (
        with_tlvs (push_back (push_back front t) e) (
          All-push_back Tlv.IsValid (push_back front t) e
            (All-push_back Tlv.IsValid front t (All-append_left Tlv.IsValid front (e ∷ []) old) vt)
            (All-back Tlv.IsValid front e old)))
]
  where
    with_tlvs : (ts : List Tlv) → All Tlv.IsValid ts → IsValid (record c { tlvs = ts })
    with_tlvs ts vs = record {
      type_u16 = vc.type_u16;
      id_u16 = vc.id_u16;
      flags_byte = vc.flags_byte;
      fragment_byte = vc.fragment_byte;
      tlvs_valid = vs;
    }
