-- ===== src/Tests/Link.antt =====
-- Inputs for the theorems on two agents and their link: two sends around the wrap of the id.
use ieee.Prelude.{
  ℕ, zero, suc, ◌≡◌, refl, arith, All, IsByte, replicate, length-replicate, length-append, List, [],
  ◌∷◌, ◌++◌, Sublist, length, ap, append-nil, ◌+◌,
}
use ieee.Result.{ok}
use ieee.World.Effects.{logged}
use ieee.Agent.Handling.{received_line, handler_lines}
use ieee.Agent.Sending.{
  after_send, discovery, discovery_bytes, discovery_bytes-AllByte, discovery_packet-bytes,
  parse-discovery_packet, discovery_bytes_size, send_topology_discovery-after_send, sends,
}
use ieee.Agent.Rounds.{IsBuffer}
use ieee.Network.{
  System, Reach, here, next, send, lose, receive, other, linked, discovery_ids, id_of, received_ids,
  rx_buffer_size,
}
use ieee.Agent.Reactions.{refilled}
use ieee.Network.Rounds.{round-discovery}
use ieee.Network.Order.{Reach-received_ids}
use mathlib.Core.List.{Nodup}
use ieee.Network.Distinct.{Reach-Nodup}
use ieee.Network.Drain.{Reach-drained}
use ieee.Network.Merge.{Merge}
use ieee.World.{World}
use ieee.Agent.Sent.{packets-after_send}
use ieee.Network.Waiting.{sent_ids}
use ieee.Tests.Calls.{idle}

All-replicate : (n a : ℕ) → IsByte a → All IsByte (replicate n a)
All-replicate zero a h = tt
All-replicate (suc n) a h = (h, All-replicate n a h)

buffer : List ℕ
buffer = replicate rx_buffer_size 0

buffer-IsBuffer : IsBuffer rx_buffer_size buffer
unfolding buffer
buffer-IsBuffer =
    (All-replicate rx_buffer_size 0 (omega arith), length-replicate {A = ℕ} rx_buffer_size 0)

-- Packets 65535 and 0 are on the link.
abbrev sent_two : System
sent_two = record {
  sender = after_send (after_send idle);
  receiver = idle;
  rx_buffer = buffer;
  in_transit = discovery_bytes 65535 ∷ discovery_bytes 0 ∷ [];
  lost = 0;
  others = [];
}

sent_two-Reach : Reach (linked idle idle buffer) sent_two
sent_two-Reach =
    next
      (next here (
        send (discovery_bytes 65535 ∷ []) (send_topology_discovery-after_send idle (omega arith))
          (packets-after_send idle)))
      (send (discovery_bytes 0 ∷ [])
        (send_topology_discovery-after_send (after_send idle) (omega arith))
        (packets-after_send (after_send idle)))

-- The first was lost, a Topology Discovery with id 7 came from elsewhere, and the second arrived with
-- a byte of padding.
abbrev after_other : World
after_other = logged (received_line (discovery 7) ∷ handler_lines (discovery 7)) idle

abbrev second_arrived : System
second_arrived = record {
  sender = after_send (after_send idle);
  receiver = logged (received_line (discovery 0) ∷ handler_lines (discovery 0)) after_other;
  rx_buffer = refilled (discovery_bytes 0 ++ (0 ∷ [])) (refilled (discovery_bytes 7 ++ []) buffer);
  in_transit = [];
  lost = 1;
  others = discovery_ids (discovery_bytes 7 ++ []);
}

other_discovery : discovery_ids (discovery_bytes 7 ++ []) ≡ 7 ∷ []
other_discovery =
    let parsed =
      rw (discovery_packet-bytes 7 (omega arith)) at (parse-discovery_packet 7 [] (omega arith)) in
    ap id_of parsed

second_arrived-Reach : Reach (linked idle idle buffer) second_arrived
second_arrived-Reach =
    next
      (next (next sent_two-Reach (lose [] (discovery_bytes 0 ∷ []) (discovery_bytes 65535) refl)) (
        other (discovery_bytes 7 ++ [])
          (rw (append-nil (discovery_bytes 7)) (discovery_bytes-AllByte 7 (omega arith)))
          (omega (arith, length-append (discovery_bytes 7) [], discovery_bytes_size 7))
          (round-discovery 7 [] buffer idle (omega arith))))
      (receive (0 ∷ []) (discovery_bytes 0) refl (omega arith, tt)
        (omega (arith, length-append (discovery_bytes 0) (0 ∷ []), discovery_bytes_size 0))
        (round-discovery 0 (0 ∷ []) (refilled (discovery_bytes 7 ++ []) buffer) after_other
          (omega arith)))

Reach-received_ids_example :
    (n : ℕ) × (sends n idle ≡ (ok tt, second_arrived.sender))
    × (seen : List ℕ) × Merge seen second_arrived.others (7 ∷ 0 ∷ [])
    × Sublist seen (sent_ids 65535 n)
    × (length seen + 0 + 1 ≡ n)
Reach-received_ids_example =
    Reach-received_ids idle idle buffer second_arrived (omega arith) refl buffer-IsBuffer
      second_arrived-Reach

Reach-drained_example :
    (t : System) × Reach sent_two t
    × (t.sender ≡ sent_two.sender)
    × (t.lost ≡ 0)
    × (t.others ≡ [])
    × (t.in_transit ≡ [])
    × (n : ℕ) × (sends n idle ≡ (ok tt, sent_two.sender))
    × Merge (sent_ids 65535 n) t.others (received_ids t.receiver.events)
Reach-drained_example =
    Reach-drained idle idle buffer sent_two (omega arith) refl buffer-IsBuffer sent_two-Reach refl

Reach-Nodup_example : (seen : List ℕ) × Merge seen second_arrived.others (7 ∷ 0 ∷ []) × Nodup seen
Reach-Nodup_example =
    Reach-Nodup idle idle buffer second_arrived (omega arith) refl buffer-IsBuffer
      second_arrived-Reach (rw other_discovery (omega arith))
