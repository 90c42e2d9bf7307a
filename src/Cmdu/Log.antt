-- ===== src/Cmdu/Log.antt =====
-- A message as a log: what was added, and the END_OF_MESSAGE that closed it, if one did.
use ieee.Prelude.{
  ℕ, ◌≡◌, refl, sym, ap, ◌∙◌, arith, ◌==◌, ==_iff, if◌then◌else◌, All, List, [], ◌∷◌, Option, none,
  some, false, Bool-cases, inl, inr,
}
use ieee.Tlv
use ieee.Tlv.{Tlv}
use ieee.TlvTypes.{end_of_message}
use ieee.Cmdu.{Cmdu, add_tlv, ends_message, find_if, find_tlv}
use ieee.Cmdu.Vector.{push_back}
use ieee.Cmdu.Adding.{extend, add_tlv_open, add_tlv_closed, ends_message-push_back, All-push_back}
use ieee.Cmdu.Ending.{end_tlv, up_to_end, ends_message_tail}

abbrev pub Log : Type 0
Log = List Tlv × Option Tlv

-- The TLVs of the message that the log stands for.
abbrev pub written : Log → List Tlv
written (ts, none) = ts
written (ts, some e) = push_back ts e

-- The entries of a type, in the order in which they were added, and the first one of the whole log.
abbrev pub of_type : ℕ → List Tlv → List Tlv
of_type type [] = []
of_type type (t ∷ ts) = let rest = of_type type ts in if t.type == type then t ∷ rest else rest

abbrev pub head? : List Tlv → Option Tlv
head? [] = none
head? (t ∷ ts) = some t

abbrev pub first_of : ℕ → Log → Option Tlv
first_of type l = head? (of_type type (written l))

-- What the network keeps of a log: nothing behind the first END_OF_MESSAGE, and one of no value
-- where there was none.
abbrev pub closing_tlv : Option Tlv → Tlv
closing_tlv none = end_tlv
closing_tlv (some e) = e

abbrev pub preceded : Tlv → Log → Log
preceded t (ts, e) = (t ∷ ts, e)

abbrev pub delivered : Log → Log
delivered ([], e) = ([], some (closing_tlv e))
delivered (t ∷ ts, e) =
    let rest = delivered (ts, e) in
    if t.type == end_of_message then ([], some t) else preceded t rest

-- The log of a message: what closes it is an END_OF_MESSAGE, and where nothing does the last entry
-- is none.
abbrev pub IsClosing : List Tlv → Option Tlv → Type 0
IsClosing ts none = ends_message ts ≡ false
IsClosing ts (some e) = (e.type ≡ end_of_message) × Tlv.IsValid e

pub record IsLog (l : Log) : Type 0 where
  pub entries_valid : All Tlv.IsValid l.0
  pub closing : IsClosing l.0 l.1

module _ (c : Cmdu) where
  abbrev pub holding : Log → Cmdu
  holding l = record c { tlvs = written l }

  -- `AddTlv` writes the log with one more entry.
  pub add_tlv-holding : (t : Tlv) (l : Log) → IsLog l → add_tlv t (holding l) ≡ holding (extend t l)
  add_tlv-holding t (ts, some e) h = add_tlv_closed t e (holding (ts, some e)) ts refl h.closing.0
  add_tlv-holding t (ts, none) h =
      add_tlv_open t (holding (ts, none)) h.closing
      ∙ elim (Bool-cases (t.type == end_of_message)) [ inl e ↦ rw e refl | inr e ↦ rw e refl ]

pub extend-IsLog : (t : Tlv) (l : Log) → Tlv.IsValid t → IsLog l → IsLog (extend t l)
extend-IsLog t (ts, some e) v h = record {
  entries_valid = All-push_back Tlv.IsValid ts t h.entries_valid v;
  closing = h.closing;
}
extend-IsLog t (ts, none) v h = elim (Bool-cases (t.type == end_of_message)) [
  | inl e ↦ rw e (record { entries_valid = h.entries_valid; closing = ((==_iff _ _).0 e, v) })
  | inr e ↦ rw e (record {
    entries_valid = All-push_back Tlv.IsValid ts t h.entries_valid v;
    closing = ends_message-push_back ts t ∙ e;
  })
]

find_if-of_type : (type : ℕ) (ts : List Tlv) → find_if type ts ≡ head? (of_type type ts)
unfolding find_if Tlv.get_type
find_if-of_type type [] = refl
find_if-of_type type (t ∷ ts) = ground (arith, find_if-of_type type ts)

-- `FindTlv` reads the first entry of the type.
pub find_tlv-first_of :
    (type : ℕ) (c : Cmdu) (l : Log) → find_tlv type (holding c l) ≡ first_of type l
unfolding find_tlv
find_tlv-first_of type c l = find_if-of_type type (written l)

written-preceded : (t : Tlv) (l : Log) → written (preceded t l) ≡ t ∷ written l
written-preceded t (ts, none) = refl
written-preceded t (ts, some e) = refl

preceded-IsLog :
    (t : Tlv) (l : Log)
    → (t.type == end_of_message) ≡ false
    → Tlv.IsValid t
    → IsLog l
    → IsLog (preceded t l)
preceded-IsLog t (ts, none) n v h = record {
  entries_valid = (v, h.entries_valid);
  closing = ends_message_tail t ts n ∙ h.closing;
}
preceded-IsLog t (ts, some e) n v h = record {
  entries_valid = (v, h.entries_valid);
  closing = h.closing;
}

-- An END_OF_MESSAGE, where there is one.
IsCloser : Option Tlv → Type 0
IsCloser none = Unit
IsCloser (some e) = (e.type ≡ end_of_message) × Tlv.IsValid e

closer : (l : Log) → IsLog l → IsCloser l.1
unfolding IsCloser
closer (ts, none) h = tt
closer (ts, some e) h = h.closing

delivered_entries :
    (ts : List Tlv) (e : Option Tlv)
    → All Tlv.IsValid ts
    → IsCloser e
    → (up_to_end (written (ts, e)) ≡ written (delivered (ts, e))) × IsLog (delivered (ts, e))
unfolding IsCloser
delivered_entries [] none v h = (refl, record { entries_valid = tt; closing = (refl, omega arith) })
delivered_entries [] (some e) v h =
    (rw ((==_iff _ _).1 h.0), record { entries_valid = tt; closing = h })
delivered_entries (t ∷ ts) e v h =
    let (same, log) = delivered_entries ts e v.1 h in
    elim (Bool-cases (t.type == end_of_message)) [
      | inl last ↦
          rw (written-preceded t (ts, e), last)
            (refl, record { entries_valid = tt; closing = ((==_iff _ _).0 last, v.0) })
      | inr other ↦
          rw (written-preceded t (ts, e), other)
            (
              ap (◌∷◌ t) same ∙ sym (written-preceded t (delivered (ts, e))),
              preceded-IsLog t (delivered (ts, e)) other v.0 log,
            )
    ]

-- What a message that is written and read brings is the log that is delivered.
pub up_to_end-written : (l : Log) → IsLog l → up_to_end (written l) ≡ written (delivered l)
up_to_end-written l h = (delivered_entries l.0 l.1 h.entries_valid (closer l h)).0

pub delivered-IsLog : (l : Log) → IsLog l → IsLog (delivered l)
delivered-IsLog l h = (delivered_entries l.0 l.1 h.entries_valid (closer l h)).1
