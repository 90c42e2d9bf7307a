-- ===== src/Controller.antt =====
-- examples/simple_controller.cpp: a program that makes an agent and sends one Topology Discovery.
pub mod Run
use ieee.Prelude.{ℕ, Bool, true, false, if◌then◌else◌, String, List, [], ◌∷◌}
use ieee.World.{M, pure, ◌>>=◌, ◌>>◌, try, scope, text}
use ieee.Logger.{em_debug, em_error}
use ieee.Interface
use ieee.Agent.Discovery.{construct, send_topology_discovery}

abbrev pub rule : String
rule = "================================================="

-- `argv[1]` if there is one.
unfoldable pub chosen_interface : List String → String
chosen_interface (program ∷ name ∷ arguments) = name
chosen_interface _ = "eth0"

-- What stands in the `try` block behind the construction of the agent.
unfoldable pub act : M (Unit {0})
act = do
  em_debug "[ACTION] Attempting to send Topology Discovery Message..." []
  send_topology_discovery
  em_debug "[ACTION] Topology Discovery Sent. Check network traffic for frame 0x893a." []
  em_debug "[AGENT] Agent is now running (or would be running main loop)..." []

-- The `try` block. The agent goes out of scope at its end, or when an exception leaves it.
unfoldable pub session : String → M (Unit {0})
session interface_name = do construct interface_name; scope act Interface.destruct

-- The block with its first handler, which returns 1 from `main`: `false`. The second handler,
-- `catch (...)`, is for exceptions of other types, of which the model has none.
unfoldable pub guarded_session : String → M Bool
guarded_session interface_name =
    try (do session interface_name; pure true)
      (λ what. do em_error "[ERROR] Fatal error during execution: {}" (text what ∷ []); pure false)

unfoldable pub finish : Bool → M ℕ
finish false = pure 1
finish true = do em_debug rule []; em_debug "Example finished successfully (simulated)." []; pure 0

-- The exit status.
unfoldable pub main : List String → M ℕ
main argv = do
  em_debug rule []
  em_debug " IEEE 1905.1 Simple Controller Example" []
  em_debug rule []
  em_debug "Using network interface: {}" (text (chosen_interface argv) ∷ [])
  completed ← guarded_session (chosen_interface argv)
  finish completed
