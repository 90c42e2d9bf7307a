-- ===== src/Agent/Discovery.antt =====
-- The constructor of the agent and `SendTopologyDiscovery` of src/agent.cpp.
use ieee.Prelude.{ℕ, ◌+◌, u16, String, List, [], ◌∷◌}
use ieee.Result.{Result, ok}
use ieee.Result
use ieee.Tlv
use ieee.TlvTypes.{device_information_type}
use ieee.CmduTypes.{topology_discovery}
use ieee.Cmdu
use ieee.Cmdu.{Cmdu, add_tlv, last_fragment}
use ieee.Serializer.{pack}
use ieee.World.{Agent, M, pure, lift, ◌>>=◌, ◌>>◌, text}
use ieee.Logger.{em_debug}
use ieee.Interface
use ieee.Interface.{send_packet}

-- The fields of the new object.
abbrev set_agent : Agent → M (Unit {0})
set_agent a w = (ok tt, record w { agent = a })

unfoldable pub construct : String → M (Unit {0})
construct interface_name = do
  iface_manager ← Interface.construct interface_name
  set_agent (record { iface_manager = iface_manager; next_message_id = 1 })
  em_debug "Ieee1905Agent: Agent initialized on {}" (text interface_name ∷ [])

abbrev pub mac_address : List ℕ
mac_address = 0x11 ∷ 0x22 ∷ 0x33 ∷ 0x44 ∷ 0x55 ∷ 0x66 ∷ []

abbrev pub multicast_mac : List ℕ
multicast_mac = 0x01 ∷ 0x80 ∷ 0xC2 ∷ 0x00 ∷ 0x00 ∷ 0x13 ∷ []

-- `m_next_message_id++` on a uint16_t: the old value, and the field wraps.
unfoldable pub take_message_id : M ℕ
take_message_id w =
    let id = w.agent.next_message_id in
    (ok id, record w { agent = record (w.agent) { next_message_id = u16 (id + 1) } })

-- Steps 1 to 3: the message with this id, its TLV, and its bytes.
unfoldable pub discovery_packet : ℕ → Result (List ℕ)
discovery_packet id =
    Result.◌>>=◌ (Tlv.make device_information_type mac_address)
      λ tlv. pack (add_tlv tlv (Cmdu.make topology_discovery id last_fragment 0))

unfoldable pub send_topology_discovery : M (Unit {0})
send_topology_discovery = do
  em_debug "Ieee1905Agent: Sending Topology Discovery..." []
  id ← take_message_id
  packet ← lift (discovery_packet id)
  _ ← send_packet packet multicast_mac
  pure tt
