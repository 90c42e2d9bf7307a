-- ===== src/Agent/Starting.antt =====
-- The constructor of the agent, and a send, as calls from a given world.
use ieee.Prelude.{ap, ◌∙◌, append_assoc, true, IsU16, ◌+◌, u16, String, List, [], ◌∷◌}
use ieee.Result.{ok}
use ieee.World.{World, Agent, Event, log, debug, negsuc, text}
use ieee.World.Effects.{logged, Does}
use ieee.Logger.Lines.{em_debug-Logs}
use ieee.Interface
use ieee.Agent.Discovery.{construct, send_topology_discovery}
use ieee.Agent.Sending.{send_lines, send_topology_discovery-after_send}

-- The fields of a new agent.
abbrev pub new_agent : String → Agent
new_agent name = record {
  iface_manager = record { interface_name = name; socket_fd = negsuc 0 };
  next_message_id = 1;
}

abbrev pub construct_lines : String → List Event
construct_lines name =
    log debug "InterfaceManager: Initialized for interface {}" (text name ∷ [])
    ∷ log debug "Ieee1905Agent: Agent initialized on {}" (text name ∷ [])
    ∷ []

-- The world in the constructor's body: the interface manager was constructed, the fields are set.
abbrev with_fields : String → World → World
with_fields name w =
    record (logged
      (log debug "InterfaceManager: Initialized for interface {}" (text name ∷ []) ∷ []) w) {
        agent = new_agent name;
      }

-- The constructor returns, sets the fields and logs the interface's line and its own.
pub construct-Does :
    (name : String) (w : World) → Does (construct name) w tt (construct_lines name) (new_agent name)
unfolding construct Interface.construct
construct-Does name w = record {
  runs =
      rw ((em_debug-Logs "InterfaceManager: Initialized for interface {}" (text name ∷ [])).runs w)
        ((em_debug-Logs "Ieee1905Agent: Agent initialized on {}" (text name ∷ [])).runs
            (with_fields name w)
          ∙ ap
              (λ (es : List Event).
                (ok tt, record w { agent = new_agent name; has_logger = true; events = es }))
              (simp append_assoc));
}

-- The send, as such a call.
pub send_topology_discovery-Does :
    (w : World)
    → IsU16 w.agent.next_message_id
    → Does send_topology_discovery w tt
        (send_lines w.agent.next_message_id)
        (record (w.agent) { next_message_id = u16 (w.agent.next_message_id + 1) })
send_topology_discovery-Does w h = record { runs = send_topology_discovery-after_send w h }
