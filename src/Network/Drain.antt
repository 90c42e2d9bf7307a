-- ===== src/Network/Drain.antt =====
-- The receiver alone empties the link.
use ieee.Prelude.{
  ℕ, zero, suc, ◌≡◌, ◌≤◌, refl, sym, ap, ap₂, subst, ◌∙◌, arith, IsU16, length, length-append,
  length-map, All, List, [], ◌∷◌, ◌++◌, map, Sublist,
}
use mathlib.Core.List.Sublist
use mathlib.Core.List.{Sublistᴰ, sublist-append_left}
use mathlib.Core.Logic.{∥∥₁_elim}
use native.Mathlib.Nat.{ℕ_set}
use ieee.Result.{ok}
use ieee.World.{World}
use ieee.Agent.Sending.{sends, discovery_bytes, discovery_bytes_size}
use ieee.Agent.Rounds.{IsBuffer}
use ieee.Network.{System, Step, receive, Reach, here, next, linked, received_ids, rx_buffer_size}
use ieee.Network.Rounds.{round-discovery}
use ieee.Network.Invariant.{Inv, Reach-Inv, receive-Inv}
use ieee.Network.Merge.{Merge}
use ieee.Network.Waiting.{sent_ids}

length-Sublistᴰ : {xs ys : List ℕ} → Sublistᴰ xs ys → length xs ≤ length ys
length-Sublistᴰ Sublistᴰ.slnil = omega arith
length-Sublistᴰ (Sublistᴰ.cons d) = omega (arith, length-Sublistᴰ d)
length-Sublistᴰ (Sublistᴰ.cons-cons e d) = omega (arith, length-Sublistᴰ d)

Sublistᴰ-eq_of_length : {xs ys : List ℕ} → Sublistᴰ xs ys → length xs ≡ length ys → xs ≡ ys
Sublistᴰ-eq_of_length Sublistᴰ.slnil h = refl
Sublistᴰ-eq_of_length (Sublistᴰ.cons d) h = absurd (omega (arith, length-Sublistᴰ d))
Sublistᴰ-eq_of_length (Sublistᴰ.cons-cons e d) h =
    ap₂ (λ (x : ℕ) (l : List ℕ). x ∷ l) e (Sublistᴰ-eq_of_length d (omega arith))

Sublist-eq_of_length : (xs ys : List ℕ) → Sublist xs ys → length xs ≡ length ys → xs ≡ ys
Sublist-eq_of_length xs ys s h = ∥∥₁_elim s (hlevel ℕ_set) λ d. Sublistᴰ-eq_of_length d h

length-sent_ids : (id n : ℕ) → length (sent_ids id n) ≡ n
length-sent_ids id zero = refl
length-sent_ids id (suc n) = omega (arith, length-append (sent_ids id n), length-sent_ids id n)

step_first : {s t u : System} → Step s t → Reach t u → Reach s u
step_first step here = next here step
step_first step (next r later) = next (step_first step r) later

-- A run that leaves the sender alone and loses nothing, to a state with nothing on the link.
record Drained (start : World) (s : System) : Type 0 where
  end : System
  run : Reach s end
  kept : Inv start end
  same_sender : end.sender ≡ s.sender
  same_lost : end.lost ≡ s.lost
  same_others : end.others ≡ s.others
  empty : end.in_transit ≡ []

nil_of : {A : Type 0} (xs : List A) → length xs ≡ 0 → xs ≡ []
nil_of [] h = refl
nil_of (x ∷ xs) h = absurd (omega arith)

first_of : (n : ℕ) (ids : List ℕ) → length ids ≡ suc n → (id : ℕ) × (ys : List ℕ) × (ids ≡ id ∷ ys)
first_of n [] h = absurd (omega arith)
first_of n (id ∷ ys) h = (id, ys, refl)

-- The round in which the first packet arrives.
receive_first :
    {start : World} (n : ℕ) (s : System) (v : Inv start s)
    → IsU16 start.agent.next_message_id
    → length v.waiting ≡ suc n
    → (t : System) × Step s t
      × (w : Inv start t) × (length w.waiting ≡ n)
      × (t.sender ≡ s.sender)
      × (t.lost ≡ s.lost)
      × (t.others ≡ s.others)
receive_first n s v h e =
    let (id, ys, all) = first_of n v.waiting e in
    let front : s.in_transit ≡ discovery_bytes id ∷ map discovery_bytes ys =
      v.in_transit ∙ ap (map discovery_bytes) all in
    let ran = round-discovery id [] s.rx_buffer s.receiver (subst (All IsU16) all v.ids_u16).0 in
    let fits : length (discovery_bytes id ++ []) ≤ rx_buffer_size =
      omega (arith, discovery_bytes_size id, length-append (discovery_bytes id) []) in
    let w =
      receive-Inv h v [] (discovery_bytes id) (map discovery_bytes ys) _ _ front tt fits ran in
    (
      _,
      receive [] (discovery_bytes id) front tt fits ran,
      w,
      omega (
        arith,
        e,
        ap length all,
        ap length w.in_transit,
        length-map discovery_bytes ys,
        length-map discovery_bytes w.waiting,
      ),
      refl,
      refl,
      refl,
    )

drain :
    {start : World} (n : ℕ) (s : System) (v : Inv start s)
    → IsU16 start.agent.next_message_id
    → length v.waiting ≡ n
    → Drained start s
drain zero s v h e = record {
  end = s;
  run = here;
  kept = v;
  same_sender = refl;
  same_lost = refl;
  same_others = refl;
  empty = nil_of s.in_transit (ap length v.in_transit ∙ length-map discovery_bytes v.waiting ∙ e);
}
drain (suc n) s v h e =
    let (t, step, w, rest, sender, lost, others) = receive_first n s v h e in
    let d : Drained _ t = drain n t w h rest in
    record {
      end = d.end;
      run = step_first step d.run;
      kept = d.kept;
      same_sender = d.same_sender ∙ sender;
      same_lost = d.same_lost ∙ lost;
      same_others = d.same_others ∙ others;
      empty = d.empty;
    }

-- After a start at which the sender's counter has 16 bits, and the receiver has a buffer of 2048
-- bytes and has seen no Topology Discovery: from every state that is reached, and in which the link
-- has lost nothing, there is a run that leaves the sender as it is, loses nothing and brings no
-- Topology Discovery from elsewhere, to a state with nothing on the link, in which the receiver
-- has logged the id of every send, in order, and of each Topology Discovery from elsewhere.
pub Reach-drained :
    (sender receiver : World) (b : List ℕ) (s : System)
    → IsU16 sender.agent.next_message_id
    → received_ids receiver.events ≡ []
    → IsBuffer rx_buffer_size b
    → Reach (linked sender receiver b) s
    → s.lost ≡ 0
    → (t : System) × Reach s t
      × (t.sender ≡ s.sender)
      × (t.lost ≡ 0)
      × (t.others ≡ s.others)
      × (t.in_transit ≡ [])
      × (n : ℕ) × (sends n sender ≡ (ok tt, s.sender))
      × Merge (sent_ids sender.agent.next_message_id n) t.others (received_ids t.receiver.events)
Reach-drained sender receiver b s h none_yet buffer r lossless =
    let v : Inv sender s = Reach-Inv h none_yet buffer r in
    let d : Drained sender s = drain (length v.waiting) s v h refl in
    let k : Inv sender d.end = d.kept in
    let empty : length k.waiting ≡ 0 =
      sym (length-map discovery_bytes k.waiting) ∙ ap length (sym k.in_transit ∙ d.empty) in
    let some_sent : Sublist k.seen (sent_ids sender.agent.next_message_id k.sent) =
      Sublist.trans (sublist-append_left k.seen k.waiting) k.ordered in
    let all : k.seen ≡ sent_ids sender.agent.next_message_id k.sent =
      Sublist-eq_of_length _ _ some_sent (
        omega (
          arith,
          k.counted,
          empty,
          d.same_lost,
          lossless,
          length-sent_ids sender.agent.next_message_id k.sent,
        )) in
    (
      d.end,
      d.run,
      d.same_sender,
      d.same_lost ∙ lossless,
      d.same_others,
      d.empty,
      k.sent,
      k.after_sends ∙ ap (λ (w : World). (ok tt, w)) d.same_sender,
      subst (λ is. Merge is (d.end).others (received_ids (d.end).receiver.events)) all k.merged,
    )
