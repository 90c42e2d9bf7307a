-- ===== src/Agent/Exchange.antt =====
-- Two agents: what one sends as a Topology Discovery, as the other handles it.
use ieee.Prelude.{ℕ, ◌+◌, ◌≤◌, ◌≡◌, refl, arith, IsU16, length, length-append, List, [], ◌∷◌, ◌++◌}
use ieee.Result.{ok}
use ieee.Result
use ieee.World.{World, log, debug, text, number}
use ieee.World.Effects.{logged}
use ieee.Agent.Switch.{switch}
use ieee.Agent.Names.{cmdu_type_to_string}
use ieee.Agent.Discovery.{discovery_packet}
use ieee.Agent.Sending.{
  discovery, discovery-IsValid, pack-discovery, discovery_bytes, discovery_bytes_size,
  discovery_packet-bytes,
}
use ieee.Agent.Handling.{handle_cmdu-Logs}
use ieee.Agent.Loop.{handle_received}
use ieee.Agent.Receiving.{handle_received-pack}

-- The packet that `SendTopologyDiscovery` makes for a 16-bit id, received at the front of a buffer,
-- with a length that covers it and lies within the buffer, is handled by logging the name, the type
-- and that id, and that a Topology Discovery is processed.
pub handle_received-discovery_packet :
    (id len : ℕ) (rest : List ℕ) (w : World)
    → IsU16 id
    → 20 ≤ len
    → len ≤ 20 + length rest
    → Result.◌>>=◌ (discovery_packet id) (λ packet. ok (handle_received len (packet ++ rest) w))
      ≡ ok (
        ok tt,
        logged
            (log debug "Ieee1905Agent: Received CMDU {} (0x{:04x}), MID=0x{:04x}"
                (text "TOPOLOGY_DISCOVERY" ∷ number 0x0000 ∷ number id ∷ [])
              ∷ log debug "Ieee1905Agent: Processing Topology Discovery Request." []
              ∷ [])
            w,
      )
handle_received-discovery_packet id len rest w h covers within =
    rw
      (
        discovery_packet-bytes id h,
        handle_received-pack (discovery id) (discovery_bytes id) rest len w (discovery-IsValid id h)
            (pack-discovery id h) (omega (arith, discovery_bytes_size id))
            (omega (arith, discovery_bytes_size id, length-append (discovery_bytes id) rest)),
        (handle_cmdu-Logs (discovery id)).runs w,
      )
      (unfold cmdu_type_to_string switch in refl)
