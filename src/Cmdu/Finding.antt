-- ===== src/Cmdu/Finding.antt =====
-- `FindTlv`: the first TLV of the type, and what an added TLV changes.
use ieee.Prelude.{
  ℕ, ◌≡◌, ◌≢◌, ◌↔◌, refl, ap, ◌∙◌, arith, ◌==◌, if◌then◌else◌, All, List, [], ◌∷◌, ◌++◌, Option,
  none, some, Bool-cases, inl, inr,
}
use ieee.Tlv.{Tlv}
use ieee.TlvTypes.{end_of_message}
use ieee.Cmdu.{Cmdu, add_tlv, find_if, find_tlv}
use ieee.Cmdu.Vector.{push_back}
use ieee.Cmdu.Adding.{add_tlv_open, add_tlv_closed, ends_message_cases}

-- `t` is the first TLV of the type among `ts`.
pub record IsFirst (type : ℕ) (t : Tlv) (ts : List Tlv) : Type 0 where
  pub before : List Tlv
  pub after : List Tlv
  pub split : ts ≡ before ++ (t ∷ after)
  pub has_type : t.type ≡ type
  pub others : All (λ u. u.type ≢ type) before

IsFirst-cons :
    (type : ℕ) (t u : Tlv) (ts : List Tlv)
    → u.type ≢ type
    → IsFirst type t ts
    → IsFirst type t (u ∷ ts)
IsFirst-cons type t u ts n f = record {
  before = u ∷ f.before;
  after = f.after;
  split = ap (◌∷◌ u) f.split;
  has_type = f.has_type;
  others = (n, f.others);
}

IsFirst-find_if :
    (type : ℕ) (t : Tlv) (ts : List Tlv) → find_if type ts ≡ some t → IsFirst type t ts
unfolding find_if
IsFirst-find_if type t [] h = cc
IsFirst-find_if type t (u ∷ ts) h = elim (Bool-cases (u.type == type)) [
  | inl e ↦ record {
    before = [];
    after = ts;
    split = ground arith;
    has_type = ground arith;
    others = tt;
  }
  | inr e ↦ IsFirst-cons type t u ts (ground arith) (IsFirst-find_if type t ts (rw e at h))
]

find_if-append :
    (type : ℕ) (t : Tlv) (before after : List Tlv)
    → t.type ≡ type
    → All (λ u. u.type ≢ type) before
    → find_if type (before ++ (t ∷ after)) ≡ some t
unfolding find_if
find_if-append type t [] after e n = ground arith
find_if-append type t (u ∷ before) after e n =
    ground (arith, find_if-append type t before after e n.1)

-- `FindTlv` returns a TLV exactly when that is the first one of the type.
pub find_tlv-eq-some_iff :
    (type : ℕ) (t : Tlv) (c : Cmdu) → (find_tlv type c ≡ some t) ↔ IsFirst type t c.tlvs
unfolding find_tlv
find_tlv-eq-some_iff type t c = (
  IsFirst-find_if type t c.tlvs,
  λ f. ap (find_if type) f.split ∙ find_if-append type t f.before f.after f.has_type f.others,
)

find_if-none : (type : ℕ) (ts : List Tlv) → (find_if type ts ≡ none) ↔ All (λ t. t.type ≢ type) ts
unfolding find_if
find_if-none type [] = (λ h. tt, λ h. refl)
find_if-none type (t ∷ ts) = ground (arith, find_if-none type ts)

-- `FindTlv` returns nullptr exactly when no TLV has the type.
pub find_tlv-eq-none_iff :
    (type : ℕ) (c : Cmdu) → (find_tlv type c ≡ none) ↔ All (λ t. t.type ≢ type) c.tlvs
unfolding find_tlv
find_tlv-eq-none_iff type c = find_if-none type c.tlvs

-- The first of two finds that is not empty.
abbrev pub or_else : Option Tlv → Option Tlv → Option Tlv
or_else (some t) o = some t
or_else none o = o

find_if_append :
    (type : ℕ) (xs ys : List Tlv)
    → find_if type (xs ++ ys) ≡ or_else (find_if type xs) (find_if type ys)
unfolding find_if
find_if_append type [] ys = refl
find_if_append type (x ∷ xs) ys = ground (arith, find_if_append type xs ys)

-- Adding a TLV that is no END_OF_MESSAGE leaves every find that succeeded, and otherwise is found
-- under its own type only.
pub find_tlv-add_tlv :
    (type : ℕ) (t : Tlv) (c : Cmdu)
    → t.type ≢ end_of_message
    → find_tlv type (add_tlv t c)
      ≡ or_else (find_tlv type c) (if t.type == type then some t else none)
unfolding find_tlv find_if
find_tlv-add_tlv type t c n = elim (ends_message_cases c.tlvs) [
  | inl o ↦ rw (add_tlv_open t c o) (find_if_append type c.tlvs (t ∷ []))
  | inr (front, e, p, h) ↦
      rw
        (
          add_tlv_closed t e c front p h,
          p,
          find_if_append type (push_back front t) (e ∷ []),
          find_if_append type front (t ∷ []),
          find_if_append type front (e ∷ []),
        )
        (ground arith)
]
