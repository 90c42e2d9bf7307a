-- ===== src/Agent/Sending.antt =====
-- What `SendTopologyDiscovery` sends, and its message ids.
use ieee.Prelude.{
  ℕ, zero, suc, true, ◌+◌, ◌%◌, ◌/◌, ◌≡◌, refl, ap, ◌∙◌, arith, IsByte, All, IsU16, u16, length,
  append_assoc, List, [], ◌∷◌, ◌++◌,
}
use ieee.Result.{ok}
use ieee.Result
use ieee.Tlv
use ieee.Tlv.{Tlv, get_type}
use ieee.TlvTypes.{device_information_type}
use ieee.CmduTypes.{topology_discovery}
use ieee.Cmdu
use ieee.Cmdu.{Cmdu, last_fragment, add_tlv, ends_message}
use ieee.Cmdu.Adding.{add_tlv-IsValid}
use ieee.Serializer.{pack}
use ieee.Serializer.Wire.{pack-wire}
use ieee.Interface.{send_packet}
use ieee.Cmdu.Ending.{end_tlv}
use ieee.Parser.{parse}
use ieee.Parser.Delivery.{parse-add_tlvs, make-IsValid}
use ieee.World.{World, Event, M, pure, ◌>>◌, log, debug, number, transmit}
use ieee.World.Effects.{logged}
use ieee.Logger.Lines.{em_debug-Logs}
use ieee.Agent.Discovery.{discovery_packet, mac_address, send_topology_discovery, take_message_id}

-- The message of a Topology Discovery, as a receiver should see it.
abbrev pub discovery : ℕ → Cmdu
discovery id = record {
  type = topology_discovery;
  id = id;
  flags = last_fragment;
  fragment_id = 0;
  tlvs = record { type = device_information_type; value = mac_address } ∷ end_tlv ∷ [];
}

abbrev mac_tlv : Tlv
mac_tlv = record { type = device_information_type; value = mac_address }

mac_tlv-IsValid : Tlv.IsValid mac_tlv
mac_tlv-IsValid = record { type_byte = omega arith; value_bytes = ground arith; fits = omega arith }

-- The packet of a Topology Discovery with any 16-bit id is parsed, with any padding behind it, as
-- that message: this id, the last-fragment flag, the device information TLV with the six bytes of
-- the address, and an END_OF_MESSAGE.
pub parse-discovery_packet :
    (id : ℕ) (pad : List ℕ)
    → IsU16 id
    → Result.◌>>=◌ (discovery_packet id) (λ bytes. parse (bytes ++ pad)) ≡ ok (discovery id)
unfolding discovery_packet Tlv.make
parse-discovery_packet id pad h =
    parse-add_tlvs topology_discovery id last_fragment 0
      (record { type = device_information_type; value = mac_address } ∷ []) pad (omega arith) h
      (omega arith) (omega arith) (mac_tlv-IsValid, tt) (omega arith, tt)

-- The bytes of that packet: the header with the id in big-endian order, the device information
-- TLV of length six, and an END_OF_MESSAGE of length zero.
pub discovery_bytes : ℕ → List ℕ
discovery_bytes id =
    0
    ∷ 0
    ∷ 0
    ∷ 0
    ∷ id / 256
    ∷ id % 256
    ∷ 0
    ∷ 0x80
    ∷ 3
    ∷ 0
    ∷ 6
    ∷ 0x11
    ∷ 0x22
    ∷ 0x33
    ∷ 0x44
    ∷ 0x55
    ∷ 0x66
    ∷ 0
    ∷ 0
    ∷ 0
    ∷ []

pub discovery_packet-bytes : (id : ℕ) → IsU16 id → discovery_packet id ≡ ok (discovery_bytes id)
unfolding discovery_packet Tlv.make discovery_bytes add_tlv ends_message Cmdu.make
discovery_packet-bytes id h =
    pack-wire (add_tlv mac_tlv (Cmdu.make topology_discovery id last_fragment 0)) (
      add_tlv-IsValid mac_tlv _ mac_tlv-IsValid (
        make-IsValid topology_discovery id last_fragment 0 (omega arith) h (omega arith)
          (omega arith)))
    ∙ refl

pub discovery-IsValid : (id : ℕ) → IsU16 id → Cmdu.IsValid (discovery id)
discovery-IsValid id h = record {
  type_u16 = omega arith;
  id_u16 = h;
  flags_byte = omega arith;
  fragment_byte = omega arith;
  tlvs_valid = (mac_tlv-IsValid, (omega arith, tt));
}

pub pack-discovery : (id : ℕ) → IsU16 id → pack (discovery id) ≡ ok (discovery_bytes id)
unfolding discovery_bytes ends_message get_type
pack-discovery id h = pack-wire (discovery id) (discovery-IsValid id h)

same_message : {a b : Cmdu} → ok a ≡ ok b → a ≡ b
same_message e = cc

pub discovery_bytes_size : (id : ℕ) → length (discovery_bytes id) ≡ 20
unfolding discovery_bytes
discovery_bytes_size id = refl

pub discovery_bytes-AllByte : (id : ℕ) → IsU16 id → All IsByte (discovery_bytes id)
unfolding discovery_bytes
discovery_bytes-AllByte id h = omega arith

-- Packets of different ids differ.
pub discovery_bytes-injective :
    (a b : ℕ) → IsU16 a → IsU16 b → discovery_bytes a ≡ discovery_bytes b → a ≡ b
unfolding discovery_bytes
discovery_bytes-injective a b ha hb e =
    let high : a / 256 ≡ b / 256 = cc in let low : a % 256 ≡ b % 256 = cc in omega arith

-- The multicast address of IEEE 1905.1.
abbrev pub ieee1905_multicast : List ℕ
ieee1905_multicast = 0x01 ∷ 0x80 ∷ 0xC2 ∷ 0x00 ∷ 0x00 ∷ 0x13 ∷ []

-- What one send with this id logs and hands to `SendPacket`.
abbrev pub send_lines : ℕ → List Event
send_lines id =
    log debug "Ieee1905Agent: Sending Topology Discovery..." []
    ∷ transmit (discovery_bytes id) ieee1905_multicast
    ∷ log debug "InterfaceManager: Sending packet of size {}" (number 20 ∷ [])
    ∷ []

-- The world after one send.
abbrev pub after_send : World → World
after_send w =
    let v = logged (send_lines w.agent.next_message_id) w in
    record v { agent = record (w.agent) { next_message_id = u16 (w.agent.next_message_id + 1) } }

-- `SendTopologyDiscovery` returns, whatever the 16-bit id. It logs that it sends, hands `SendPacket`
-- the packet with this id and the multicast address of IEEE 1905.1, where it is logged that 20 bytes
-- are sent, and counts the id up, modulo 65536.
pub send_topology_discovery-after_send :
    (w : World) → IsU16 w.agent.next_message_id → send_topology_discovery w ≡ (ok tt, after_send w)
unfolding send_topology_discovery take_message_id send_packet
send_topology_discovery-after_send w h =
    rw
      (
        (em_debug-Logs "Ieee1905Agent: Sending Topology Discovery..." []).runs w,
        discovery_packet-bytes w.agent.next_message_id h,
      )
      (rw
        (
          discovery_bytes_size w.agent.next_message_id,
          (em_debug-Logs "InterfaceManager: Sending packet of size {}" (number 20 ∷ [])).runs _,
        )
        (ap
          (λ (es : List Event). (
            ok tt,
            record w {
              agent = record (w.agent) { next_message_id = u16 (w.agent.next_message_id + 1) };
              has_logger = true;
              events = es;
            },
          ))
          (simp append_assoc)))

-- A number of sends, one after the other.
abbrev pub sends : ℕ → M (Unit {0})
sends zero = pure tt
sends (suc n) = send_topology_discovery >> sends n

-- Any number of sends returns and leaves the 16-bit counter that many steps further, modulo 65536.
pub sends-next_message_id :
    (n : ℕ) (w : World)
    → IsU16 w.agent.next_message_id
    → ((sends n w).0 ≡ ok tt)
      × ((sends n w).1.agent.next_message_id ≡ u16 (w.agent.next_message_id + n))
sends-next_message_id zero w h = (refl, omega arith)
sends-next_message_id (suc n) w h =
    let rest = sends-next_message_id n (after_send w) (omega arith) in
    rw (send_topology_discovery-after_send w h) (rest.0, rest.1 ∙ omega arith)
