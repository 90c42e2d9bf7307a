-- ===== src/Network.antt =====
-- Two agents on one link: what one sends by `SendTopologyDiscovery` of src/agent.cpp reaches the
-- loop of the other's `Start`, or is lost. The link is not part of the program: it keeps the order
-- of the packets, may lose any of them and may pad them, and carries any other traffic too, Topology
-- Discoveries of other agents among it.
pub mod Merge
pub mod Ids
pub mod Rounds
pub mod Waiting
pub mod Invariant
pub mod Order
pub mod Drain
pub mod Distinct
use ieee.Prelude.{
  ℕ, ◌+◌, ◌≤◌, ◌≡◌, ◌≢◌, ◌==◌, if◌then◌else◌, length, All, IsByte, List, [], ◌∷◌, ◌++◌,
}
use ieee.Result.{Result, ok, err}
use ieee.Cmdu.{Cmdu}
use ieee.CmduTypes.{topology_discovery}
use ieee.Parser.{parse}
use ieee.World.{World, Event, Argument, log, debug, text, number}
use ieee.Agent.Discovery.{send_topology_discovery}
use ieee.Agent.Sent.{packets}
use ieee.Agent.Loop.{round}
use ieee.Agent.Arrivals.{arrive}

-- The buffer of `Start`.
abbrev pub rx_buffer_size : ℕ
rx_buffer_size = 2048

-- The two agents, the buffer of the receiver's loop, the packets on the link in the order in which
-- they were sent, how many the link has lost, and the ids of the Topology Discoveries that came to
-- the receiver from elsewhere, in the order of their arrival.
pub record System : Type 0 where
  pub sender : World
  pub receiver : World
  pub rx_buffer : List ℕ
  pub in_transit : List (List ℕ)
  pub lost : ℕ
  pub others : List ℕ

-- The id of the Topology Discovery that the bytes are, if they are one.
abbrev pub id_of : Result Cmdu → List ℕ
id_of (ok c) = if c.type == topology_discovery then c.id ∷ [] else []
id_of (err e) = []

abbrev pub discovery_ids : List ℕ → List ℕ
discovery_ids bytes = id_of (parse bytes)

-- What can happen next: a send, which brings onto the link what it hands to `SendPacket`, the loss of
-- a packet, a round of the receiver in which the first packet arrives, or one in which any other
-- bytes do, or none.
pub data Step (s : System) : System → Type 0 where
  send :
      (handed : List (List ℕ)) {w : World}
      → send_topology_discovery s.sender ≡ (ok tt, w)
      → packets w.events ≡ packets s.sender.events ++ handed
      → Step s (record s { sender = w; in_transit = s.in_transit ++ handed })
  lose :
      (before later : List (List ℕ)) (packet : List ℕ)
      → s.in_transit ≡ before ++ (packet ∷ later)
      → Step s (record s { in_transit = before ++ later; lost = s.lost + 1 })
  receive :
      (pad packet : List ℕ) {later : List (List ℕ)} {b : List ℕ} {w : World}
      → s.in_transit ≡ packet ∷ later
      → All IsByte pad
      → length (packet ++ pad) ≤ rx_buffer_size
      → round (arrive (packet ++ pad)) s.rx_buffer s.receiver ≡ (ok b, w)
      → Step s (record s { receiver = w; rx_buffer = b; in_transit = later })
  other :
      (bytes : List ℕ) {b : List ℕ} {w : World}
      → All IsByte bytes
      → length bytes ≤ rx_buffer_size
      → round (arrive bytes) s.rx_buffer s.receiver ≡ (ok b, w)
      → Step s (record s { receiver = w; rx_buffer = b; others = s.others ++ discovery_ids bytes })

pub data Reach (s : System) : System → Type 0 where
  here : Reach s s
  next : {t u : System} → Reach s t → Step t u → Reach s u

-- Before the first send.
abbrev pub linked : World → World → List ℕ → System
linked sender receiver rx_buffer = record {
  sender = sender;
  receiver = receiver;
  rx_buffer = rx_buffer;
  in_transit = [];
  lost = 0;
  others = [];
}

-- The id in the line of a Topology Discovery that was received: only the lines of received messages
-- are at this level and have a name and two numbers.
abbrev id_in : List Argument → List ℕ
id_in (text name ∷ number type ∷ number id ∷ []) =
    if type == topology_discovery then id ∷ [] else []
id_in _ = []

abbrev discovery_id : Event → List ℕ
discovery_id (log debug format arguments) = id_in arguments
discovery_id _ = []

-- The ids of the Topology Discoveries that were received, in the order of their log lines.
abbrev pub received_ids : List Event → List ℕ
received_ids [] = []
received_ids (e ∷ es) = discovery_id e ++ received_ids es
