-- ===== src/Network/Order.antt =====
-- What the receiver has seen of the sends, after any sequence of steps.
use ieee.Prelude.{ℕ, ◌+◌, ◌≡◌, length-map, ap, arith, IsU16, length, List, [], Sublist}
use mathlib.Core.List.Sublist
use mathlib.Core.List.{sublist-append_left}
use ieee.Result.{ok}
use ieee.World.{World}
use ieee.Agent.Sending.{sends, discovery_bytes}
use ieee.Agent.Rounds.{IsBuffer}
use ieee.Network.{System, Reach, linked, received_ids, rx_buffer_size}
use ieee.Network.Merge.{Merge}
use ieee.Network.Invariant.{Inv, Reach-Inv}
use ieee.Network.Waiting.{sent_ids}

-- However sends, losses, padding, any other traffic and empty rounds follow one another after a start
-- at which the sender's counter has 16 bits, and the receiver has a buffer of 2048 bytes and has
-- seen no Topology Discovery: the sender is where a number of sends alone leads, and the ids that the
-- receiver has logged are those of some of these sends, in the order of the sends and each once, and
-- those of the Topology Discoveries that came from elsewhere, in the order of their arrival. As many
-- sends as it has not logged were lost or are on the link.
pub Reach-received_ids :
    (sender receiver : World) (b : List ℕ) (s : System)
    → IsU16 sender.agent.next_message_id
    → received_ids receiver.events ≡ []
    → IsBuffer rx_buffer_size b
    → Reach (linked sender receiver b) s
    → (n : ℕ) × (sends n sender ≡ (ok tt, s.sender))
      × (seen : List ℕ) × Merge seen s.others (received_ids s.receiver.events)
      × Sublist seen (sent_ids sender.agent.next_message_id n)
      × (length seen + length s.in_transit + s.lost ≡ n)
Reach-received_ids sender receiver b s h none_yet buffer r =
    let v : Inv sender s = Reach-Inv h none_yet buffer r in
    (
      v.sent,
      v.after_sends,
      v.seen,
      v.merged,
      Sublist.trans (sublist-append_left v.seen v.waiting) v.ordered,
      omega (arith, v.counted, ap length v.in_transit, length-map discovery_bytes v.waiting),
    )
