-- ===== src/Cmdu/Ending.antt =====
-- Where the END_OF_MESSAGE of a message stands.
use ieee.Prelude.{
  ◌≡◌, ◌≢◌, refl, arith, ◌==◌, if◌then◌else◌, All, List, [], ◌∷◌, ◌++◌, true, false, ◌⊎◌, inl,
}
use ieee.Tlv.{Tlv, get_type}
use ieee.TlvTypes.{end_of_message}
use ieee.Cmdu.{ends_message}

abbrev pub NotEnd : Tlv → Type 0
NotEnd t = t.type ≢ end_of_message

-- The last TLV, and no other, is an END_OF_MESSAGE.
abbrev pub EndsOnce : List Tlv → Type 0
EndsOnce [] = ⊥
EndsOnce (t ∷ ts) = ((t.type ≡ end_of_message) × (ts ≡ [])) ⊎ (NotEnd t × EndsOnce ts)

abbrev pub end_tlv : Tlv
end_tlv = record { type = end_of_message; value = [] }

-- The TLVs up to the first END_OF_MESSAGE and with it; an empty one stands in if there is none.
abbrev pub up_to_end : List Tlv → List Tlv
up_to_end [] = end_tlv ∷ []
up_to_end (t ∷ ts) = if t.type == end_of_message then t ∷ [] else t ∷ up_to_end ts

pub EndsOnce-ends_message : (ts : List Tlv) → EndsOnce ts → ends_message ts ≡ true
unfolding ends_message get_type
EndsOnce-ends_message [] h = absurd h
EndsOnce-ends_message (t ∷ []) h = ground arith
EndsOnce-ends_message (t ∷ u ∷ ts) h = ground (arith, EndsOnce-ends_message (u ∷ ts))

pub ends_message-append : (xs ts : List Tlv) → EndsOnce ts → ends_message (xs ++ ts) ≡ true
unfolding ends_message
ends_message-append [] ts h = EndsOnce-ends_message ts h
ends_message-append (x ∷ []) [] h = absurd h
ends_message-append (x ∷ []) (t ∷ ts) h = EndsOnce-ends_message (t ∷ ts) h
ends_message-append (x ∷ y ∷ xs) ts h = ends_message-append (y ∷ xs) ts h

pub not-ends_message : (ts : List Tlv) → All NotEnd ts → ends_message ts ≡ false
unfolding ends_message get_type
not-ends_message [] h = refl
not-ends_message (t ∷ []) h = ground arith
not-ends_message (t ∷ u ∷ ts) h = not-ends_message (u ∷ ts) h.1

pub ends_message_tail :
    (t : Tlv) (ts : List Tlv)
    → (t.type == end_of_message) ≡ false
    → ends_message (t ∷ ts) ≡ ends_message ts
unfolding ends_message get_type
ends_message_tail t [] h = h
ends_message_tail t (u ∷ ts) h = refl

pub up_to_end-EndsOnce : (ts : List Tlv) → EndsOnce (up_to_end ts)
up_to_end-EndsOnce [] = inl (refl, refl)
up_to_end-EndsOnce (t ∷ ts) = ground (arith, up_to_end-EndsOnce ts)

pub up_to_end_of_EndsOnce : (ts : List Tlv) → EndsOnce ts → up_to_end ts ≡ ts
up_to_end_of_EndsOnce [] h = absurd h
up_to_end_of_EndsOnce (t ∷ ts) h = ground (arith, up_to_end_of_EndsOnce ts)
