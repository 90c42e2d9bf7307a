-- ===== src/Network/Distinct.antt =====
-- The ids that the receiver logs do not repeat until the counter has wrapped.
use mathlib.Core.HLevel.{⊥_prop}
use mathlib.Core.Logic.Or
use mathlib.Core.List.{
  Mem, Nodup, Nodup-nil, Nodup-append, mem-append, eq-or-mem_of_mem-cons, not-mem-nil,
}
use mathlib.Core.List.Nodup
use mathlib.Core.List.Pairwise
use ieee.Prelude.{ℕ, zero, suc, ◌+◌, ◌≤◌, ◌<◌, ◌≡◌, subst, arith, IsU16, u16, length, List, []}
use ieee.World.{World}
use ieee.Agent.Rounds.{IsBuffer}
use ieee.Network.{System, Reach, linked, received_ids, rx_buffer_size}
use ieee.Network.Merge.{Merge, length-Merge}
use ieee.Network.Waiting.{sent_ids}
use ieee.Network.Order.{Reach-received_ids}

not-mem-sent_ids : (id n k : ℕ) → n ≤ k → k < 65536 → ¬ Mem (u16 (id + k)) (sent_ids id n)
not-mem-sent_ids id zero k h near m = not-mem-nil m
not-mem-sent_ids id (suc n) k h near m =
    Or.elim ⊥_prop (mem-append.0 m) (not-mem-sent_ids id n k (omega arith) near) λ last.
      Or.elim ⊥_prop (eq-or-mem_of_mem-cons last)
        (λ (e : u16 (id + k) ≡ u16 (id + n)). absurd (omega arith)) not-mem-nil

sent_ids-Nodup : (id n : ℕ) → n ≤ 65536 → Nodup (sent_ids id n)
sent_ids-Nodup id zero h = Nodup-nil
sent_ids-Nodup id (suc n) h = Nodup-append.1 (
  sent_ids-Nodup id n (omega arith),
  Pairwise.cons (λ a m. absurd (not-mem-nil m)) Pairwise.nil,
  λ a before last.
      Or.elim ⊥_prop (eq-or-mem_of_mem-cons last)
        (λ (e : a ≡ u16 (id + n)).
          not-mem-sent_ids id n n (omega arith) (omega arith)
            (subst (λ (b : ℕ). Mem b (sent_ids id n)) e before))
        not-mem-nil,
)

-- After a start at which the sender's counter has 16 bits, and the receiver has a buffer of 2048
-- bytes and has seen no Topology Discovery: as long as at most 65536 packets were sent, counted as
-- the logged ids that did not come from elsewhere and the packets that are on the link or were lost,
-- the receiver has logged, apart from the ids of the Topology Discoveries that came from elsewhere,
-- no id twice.
pub Reach-Nodup :
    (sender receiver : World) (b : List ℕ) (s : System)
    → IsU16 sender.agent.next_message_id
    → received_ids receiver.events ≡ []
    → IsBuffer rx_buffer_size b
    → Reach (linked sender receiver b) s
    → length (received_ids s.receiver.events) + length s.in_transit + s.lost
      ≤ 65536 + length s.others
    → (seen : List ℕ) × Merge seen s.others (received_ids s.receiver.events) × Nodup seen
Reach-Nodup sender receiver b s h none_yet buffer r few =
    let (n, _, seen, merged, some_sent, counted) =
      Reach-received_ids sender receiver b s h none_yet buffer r in
    let fits : n ≤ 65536 = omega (arith, length-Merge merged) in
    (seen, merged, Nodup.sublist some_sent (sent_ids-Nodup sender.agent.next_message_id n fits))
