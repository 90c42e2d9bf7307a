-- ===== src/Network/Invariant.antt =====
-- The invariant of the two agents and the link, and that every step keeps it.
use ieee.Prelude.{
  ℕ, suc, ◌+◌, ◌≡◌, ◌≤◌, refl, sym, subst, ap, ap₂, ◌∙◌, arith, IsU16, u16, length, length-append,
  All, All-append, IsByte, append_assoc, append-nil, List, [], ◌∷◌, ◌++◌, map, Sublist, ◌==◌,
  Bool-cases, inl, inr,
}
use mathlib.Core.List.Sublist
use mathlib.Core.List.{sublist-cons_self, map-append}
use ieee.Result.{Result, ok, err}
use ieee.World.{World}
use ieee.Agent.Discovery.{send_topology_discovery}
use ieee.Agent.Sent.{packets, packets-after_send}
use ieee.Network.Merge.{Merge, done, Merge-snoc_left, Merge-snoc_right}
use ieee.Agent.Sending.{
  sends, sends-next_message_id, discovery_bytes, discovery_bytes-AllByte, after_send,
  send_topology_discovery-after_send,
}
use ieee.Agent.Loop.{round}
use ieee.Agent.Arrivals.{arrive}
use ieee.Agent.Rounds.{IsBuffer}
use ieee.Cmdu.{Cmdu}
use ieee.CmduTypes.{topology_discovery}
use ieee.Parser.{parse}
use ieee.Network.{
  System, Step, send, lose, receive, other, Reach, here, next, linked, received_ids, rx_buffer_size,
  id_of, discovery_ids,
}
use ieee.Agent.Reactions.{refilled-IsBuffer}
use ieee.Network.Rounds.{round-discovery, received_ids-discovery, round_other}
use ieee.Network.Waiting.{
  sent_ids, sends_more, first_waiting, split_waiting, same_outcome, All-remove_middle,
}

-- The system after `sent` sends, of which the receiver has seen those of the ids `seen`, with packets
-- of the ids `waiting` on the link.
pub record Inv (start : World) (s : System) : Type 0 where
  pub sent : ℕ
  pub waiting : List ℕ
  pub seen : List ℕ
  pub after_sends : sends sent start ≡ (ok tt, s.sender)
  pub in_transit : s.in_transit ≡ map discovery_bytes waiting
  pub ids_u16 : All IsU16 waiting
  pub merged : Merge seen s.others (received_ids s.receiver.events)
  pub ordered : Sublist (seen ++ waiting) (sent_ids start.agent.next_message_id sent)
  pub counted : length seen + length waiting + s.lost ≡ sent
  pub buffer : IsBuffer rx_buffer_size s.rx_buffer

append-cancel : {A : Type 0} (xs ys zs : List A) → xs ++ ys ≡ xs ++ zs → ys ≡ zs
append-cancel [] ys zs e = e
append-cancel (x ∷ xs) ys zs e = append-cancel xs ys zs (cc)

merged_ids :
    (r : Result Cmdu) {xs ys zs : List ℕ}
    → Merge xs ys zs
    → Merge xs (ys ++ id_of r) (zs ++ id_of r)
merged_ids (ok c) {xs} {ys} {zs} m = elim (Bool-cases (c.type == topology_discovery)) [
  | inl e ↦ rw e (Merge-snoc_right c.id m)
  | inr e ↦ rw (e, append-nil ys, append-nil zs) m
]
merged_ids (err x) {xs} {ys} {zs} m = rw (append-nil ys, append-nil zs) m

module _ {start : World} {s : System} (start_u16 : IsU16 start.agent.next_message_id)
    (v : Inv start s) where
  sender_id : s.sender.agent.next_message_id ≡ u16 (start.agent.next_message_id + v.sent)
  sender_id = rw v.after_sends at (sends-next_message_id v.sent start start_u16).1

  -- What a send hands to `SendPacket`.
  handed_by :
      (w : World) (handed : List (List ℕ))
      → send_topology_discovery s.sender ≡ (ok tt, w)
      → packets w.events ≡ packets s.sender.events ++ handed
      → handed ≡ discovery_bytes s.sender.agent.next_message_id ∷ []
  handed_by w handed returned added =
      let u : IsU16 s.sender.agent.next_message_id = omega (arith, sender_id) in
      let same : w ≡ after_send s.sender =
        ap (λ (r : Result (Unit {0}) × World). r.1)
          (sym returned ∙ send_topology_discovery-after_send s.sender u) in
      append-cancel (packets s.sender.events) handed _
        (sym added ∙ ap (λ (u' : World). packets u'.events) same ∙ packets-after_send s.sender)

  send-Inv :
      (handed : List (List ℕ)) (w : World)
      → send_topology_discovery s.sender ≡ (ok tt, w)
      → packets w.events ≡ packets s.sender.events ++ handed
      → Inv start (record s { sender = w; in_transit = s.in_transit ++ handed })
  send-Inv handed w returned added =
      let i : ℕ = u16 (start.agent.next_message_id + v.sent) in
      let i_u16 : IsU16 i = omega arith in
      let bytes : handed ≡ discovery_bytes i ∷ [] =
        handed_by w handed returned added ∙ ap (λ (id : ℕ). discovery_bytes id ∷ []) sender_id in
      record {
        sent = suc v.sent;
        waiting = v.waiting ++ (i ∷ []);
        seen = v.seen;
        merged = v.merged;
        after_sends = sends_more v.sent start s.sender w v.after_sends returned;
        in_transit =
            ap₂ (λ (ps qs : List (List ℕ)). ps ++ qs) v.in_transit bytes
            ∙ sym (map-append discovery_bytes v.waiting (i ∷ []));
        ids_u16 = All-append IsU16 v.waiting (i ∷ []) v.ids_u16 (i_u16, tt);
        ordered =
            rw (← append_assoc v.seen v.waiting (i ∷ []))
              (Sublist.append v.ordered (Sublist.refl (i ∷ [])));
        counted = omega (arith, v.counted, length-append v.waiting (i ∷ []));
        buffer = v.buffer;
      }

  lose-Inv :
      (before later : List (List ℕ)) (packet : List ℕ)
      → s.in_transit ≡ before ++ (packet ∷ later)
      → Inv start (record s { in_transit = before ++ later; lost = s.lost + 1 })
  lose-Inv before later packet e =
      let (xs, i, ys, all, front, one, back) =
        split_waiting v.waiting before packet later (sym e ∙ v.in_transit) in
      record {
        sent = v.sent;
        waiting = xs ++ ys;
        seen = v.seen;
        merged = v.merged;
        after_sends = v.after_sends;
        in_transit = ap₂ ◌++◌ front back ∙ sym (map-append discovery_bytes xs ys);
        ids_u16 = All-remove_middle xs i ys (rw all at v.ids_u16);
        ordered =
            Sublist.trans
              (Sublist.append (Sublist.refl v.seen)
                (Sublist.append (Sublist.refl xs) (sublist-cons_self i ys)))
              (rw all at v.ordered);
        counted =
            omega (arith, v.counted, ap length all, length-append xs (i ∷ ys), length-append xs ys);
        buffer = v.buffer;
      }

  pub receive-Inv :
      (pad packet : List ℕ) (later : List (List ℕ)) (b : List ℕ) (w : World)
      → s.in_transit ≡ packet ∷ later
      → All IsByte pad
      → length (packet ++ pad) ≤ rx_buffer_size
      → round (arrive (packet ++ pad)) s.rx_buffer s.receiver ≡ (ok b, w)
      → Inv start (record s { receiver = w; rx_buffer = b; in_transit = later })
  receive-Inv pad packet later b w e pad_bytes fits ran =
      let (i, ys, all, one, back) = first_waiting v.waiting packet later (sym e ∙ v.in_transit) in
      let waiting_u16 : All IsU16 (i ∷ ys) = subst (All IsU16) all v.ids_u16 in
      let (refill, outcome) = same_outcome (
        sym ran
        ∙ ap (λ (p : List ℕ). round (arrive (p ++ pad)) s.rx_buffer s.receiver) one
        ∙ round-discovery i pad s.rx_buffer s.receiver waiting_u16.0) in
      let logs : received_ids w.events ≡ received_ids s.receiver.events ++ (i ∷ []) =
        ap (λ (u : World). received_ids u.events) outcome ∙ received_ids-discovery i s.receiver in
      record {
        sent = v.sent;
        waiting = ys;
        seen = v.seen ++ (i ∷ []);
        merged = rw logs (Merge-snoc_left i v.merged);
        after_sends = v.after_sends;
        in_transit = back;
        ids_u16 = waiting_u16.1;
        ordered =
            subst (λ is. Sublist is (sent_ids start.agent.next_message_id v.sent))
              (ap (◌++◌ v.seen) all ∙ sym (append_assoc v.seen (i ∷ []) ys)) v.ordered;
        counted = omega (arith, v.counted, ap length all, length-append v.seen (i ∷ []));
        buffer = subst (IsBuffer rx_buffer_size) (sym refill) (
            refilled-IsBuffer rx_buffer_size (discovery_bytes i ++ pad) s.rx_buffer
              (All-append IsByte (discovery_bytes i) pad (discovery_bytes-AllByte i waiting_u16.0)
                pad_bytes)
              (subst (λ p. length (p ++ pad) ≤ rx_buffer_size) one fits) v.buffer);
      }

  other-Inv :
      (bytes b : List ℕ) (w : World)
      → All IsByte bytes
      → length bytes ≤ rx_buffer_size
      → round (arrive bytes) s.rx_buffer s.receiver ≡ (ok b, w)
      → Inv start
          (record s { receiver = w; rx_buffer = b; others = s.others ++ discovery_ids bytes })
  other-Inv bytes b w bytes_all fits ran =
      let (w', e, same) = round_other bytes s.rx_buffer s.receiver bytes_all in
      let (refill, outcome) = same_outcome (sym ran ∙ e) in
      let logs : received_ids w.events ≡ received_ids s.receiver.events ++ discovery_ids bytes =
        ap (λ (u : World). received_ids u.events) outcome ∙ same in
      record {
        sent = v.sent;
        waiting = v.waiting;
        seen = v.seen;
        merged = rw logs (merged_ids (parse bytes) v.merged);
        after_sends = v.after_sends;
        in_transit = v.in_transit;
        ids_u16 = v.ids_u16;
        ordered = v.ordered;
        counted = v.counted;
        buffer =
            subst (IsBuffer rx_buffer_size) (sym refill)
              (refilled-IsBuffer rx_buffer_size bytes s.rx_buffer bytes_all fits v.buffer);
      }

Step-Inv :
    {start : World} {s t : System}
    → IsU16 start.agent.next_message_id
    → Inv start s
    → Step s t
    → Inv start t
Step-Inv h v (send handed {w} returned added) = send-Inv h v handed w returned added
Step-Inv h v (lose before later packet e) = lose-Inv h v before later packet e
Step-Inv h v (receive pad packet {later} {b} {w} e bytes fits ran) =
    receive-Inv h v pad packet later b w e bytes fits ran
Step-Inv h v (other bytes {b} {w} all fits ran) = other-Inv h v bytes b w all fits ran

-- What holds at the start: nothing was sent, and the receiver has seen no Topology Discovery.
linked-Inv :
    (sender receiver : World) (b : List ℕ)
    → received_ids receiver.events ≡ []
    → IsBuffer rx_buffer_size b
    → Inv sender (linked sender receiver b)
linked-Inv sender receiver b none_yet buffer = record {
  sent = 0;
  waiting = [];
  after_sends = refl;
  in_transit = refl;
  ids_u16 = tt;
  seen = [];
  merged = rw none_yet done;
  ordered = Sublist.refl [];
  counted = refl;
  buffer = buffer;
}

pub Reach-Inv :
    {sender receiver : World} {b : List ℕ} {s : System}
    → IsU16 sender.agent.next_message_id
    → received_ids receiver.events ≡ []
    → IsBuffer rx_buffer_size b
    → Reach (linked sender receiver b) s
    → Inv sender s
Reach-Inv {sender} {receiver} {b} h none_yet buffer here =
    linked-Inv sender receiver b none_yet buffer
Reach-Inv h none_yet buffer (next r step) = Step-Inv h (Reach-Inv h none_yet buffer r) step
