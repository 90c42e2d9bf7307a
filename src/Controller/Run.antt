-- ===== src/Controller/Run.antt =====
-- What the example program does.
use ieee.Prelude.{◌≡◌, drop, refl, arith, true, String, List, [], ◌∷◌, ◌++◌}
use ieee.World.{World, Agent, Event, log, debug, text, number, transmit, Argument}
use ieee.Logger.{em_debug}
use ieee.World.Effects.{logged, Does, Does-scope, Does-try, Does-bind, Does-Logs}
use ieee.Logger.Lines.{em_debug-Logs}
use ieee.Interface
use ieee.Agent.Starting.{new_agent, construct_lines, construct-Does, send_topology_discovery-Does}
use ieee.Agent.Sending.{discovery_bytes, ieee1905_multicast}
use ieee.Controller.{chosen_interface, act, session, guarded_session, finish, main}

-- The agent after one send.
abbrev pub sent_agent : String → Agent
sent_agent name = record (new_agent name) { next_message_id = 2 }

abbrev act_lines : List Event
act_lines =
    log debug "[ACTION] Attempting to send Topology Discovery Message..." []
    ∷ log debug "Ieee1905Agent: Sending Topology Discovery..." []
    ∷ transmit (discovery_bytes 1) ieee1905_multicast
    ∷ log debug "InterfaceManager: Sending packet of size {}" (number 20 ∷ [])
    ∷ log debug "[ACTION] Topology Discovery Sent. Check network traffic for frame 0x893a." []
    ∷ log debug "[AGENT] Agent is now running (or would be running main loop)..." []
    ∷ []

debug-Does :
    (f : String) (a : List Argument) (w : World)
    → Does (em_debug f a) w tt (log debug f a ∷ []) w.agent
debug-Does f a w = Does-Logs w (em_debug-Logs f a)

act-Does :
    (name : String) (v : World)
    → Does act (record v { agent = new_agent name }) tt act_lines (sent_agent name)
unfolding act
act-Does name v = Does-bind _ (debug-Does _ [] (record v { agent = new_agent name })) (
    Does-bind _ (send_topology_discovery-Does _ (omega arith))
      (Does-bind _ (debug-Does _ [] _) (debug-Does _ [] _)))

abbrev shutdown_line : Event
shutdown_line = log debug "InterfaceManager: Shutdown complete." []

session-Does :
    (name : String) (w : World)
    → Does
        (session name)
        w
        tt
        (construct_lines name ++ (act_lines ++ (shutdown_line ∷ [])))
        (sent_agent name)
unfolding session Interface.destruct
session-Does name w =
    Does-bind _ (construct-Does name w)
      (Does-scope (act-Does name (logged (construct_lines name) w)) (debug-Does _ [] _))

abbrev divider : String
divider = "================================================="

abbrev pub intro_lines : String → List Event
intro_lines name =
    log debug divider []
    ∷ log debug " IEEE 1905.1 Simple Controller Example" []
    ∷ log debug divider []
    ∷ log debug "Using network interface: {}" (text name ∷ [])
    ∷ []

abbrev pub outro_lines : List Event
outro_lines = log debug divider [] ∷ log debug "Example finished successfully (simulated)." [] ∷ []

-- The lines of a whole run.
abbrev pub main_lines : String → List Event
main_lines name =
    intro_lines name ++ (construct_lines name ++ (act_lines ++ (shutdown_line ∷ outro_lines)))

guarded_session-Does :
    (name : String) (w : World)
    → Does
        (guarded_session name)
        w
        true
        (construct_lines name ++ (act_lines ++ (shutdown_line ∷ [])))
        (sent_agent name)
unfolding guarded_session
guarded_session-Does name w =
    Does-try _ (Does-bind _ (session-Does name w) (record { runs = refl }))

main_chosen-Does :
    (argv : List String) (w : World)
    → Does (main argv) w 0 (main_lines (chosen_interface argv)) (sent_agent (chosen_interface argv))
unfolding main finish
main_chosen-Does argv w = Does-bind _ (debug-Does _ [] w) (
    Does-bind _ (debug-Does _ [] _) (
      Does-bind _ (debug-Does _ [] _) (
        Does-bind _ (debug-Does _ _ _) (
          Does-bind _ (guarded_session-Does (chosen_interface argv) _) (
            Does-bind _ (debug-Does _ [] _)
              (Does-bind _ (debug-Does _ [] _) (record { runs = refl })))))))

-- The first argument behind the program's name, or eth0 if there is none.
abbrev pub interface_of : List String → String
interface_of argv = elim (drop 1 argv) as (λ _. String) [ [] ↦ "eth0" | ◌∷◌ name more ↦ name ]

chosen_interface_of : (argv : List String) → chosen_interface argv ≡ interface_of argv
unfolding chosen_interface
chosen_interface_of [] = refl
chosen_interface_of (program ∷ []) = refl
chosen_interface_of (program ∷ name ∷ more) = refl

-- The example program returns 0 for any arguments: no exception reaches its handlers. It uses the
-- interface of its first argument, or eth0 if there is none, and logs its introduction, the
-- construction of the agent on it, one Topology Discovery with id 1, which it hands to `SendPacket`,
-- the shutdown of the interface, and its end.
pub main-Does :
    (argv : List String) (w : World)
    → Does (main argv) w 0 (main_lines (interface_of argv)) (sent_agent (interface_of argv))
main-Does argv w = rw (← chosen_interface_of argv) (main_chosen-Does argv w)
