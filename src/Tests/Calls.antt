-- ===== src/Tests/Calls.antt =====
-- Inputs for the theorems on the agent and the logger.
use ieee.Prelude.{ℕ, true, ◌↔◌, ◌≡◌, ◌≢◌, arith, false, refl, take, replicate, List, [], ◌∷◌, ◌++◌}
use ieee.Prelude.{◌%◌}
use ieee.Result.{ok}
use ieee.World.{World, log, debug, negsuc}
use ieee.World.Effects.{Logs}
use ieee.Logger.{em_debug}
use ieee.Logger.Lines.{em_debug-Logs}
use ieee.Agent.Dispatch.{handle_cmdu}
use ieee.Agent.Handling.{handle_cmdu-Logs, received_line}
use ieee.Agent.Discovery.{send_topology_discovery}
use ieee.Agent.Sent.{packets, get_elem?, packets-sends_eq_iff}
use ieee.Prelude.{length}
use ieee.Agent.Sending.{sends, after_send, send_topology_discovery-after_send}
use ieee.Agent.Loop.{handle_received}
use ieee.Agent.Receiving.{IsDealtWith, handle_received-IsDealtWith, handle_received-pack}
use ieee.World.Order.{IsConsistent, scan}
use ieee.Agent.Order.{
  Call, new, destroy, discover, say, handle, listen, receive, ReturnsOrdered, run_all,
  run_all-ReturnsOrdered,
}
use ieee.World.{pos, pure}
use ieee.World.Effects.{Does}
use ieee.Interface.{receive_packet}
use ieee.Agent.Switch.{switch}
use ieee.Agent.Announcing.{topology_query}
use ieee.Agent.Names.{cmdu_type_to_string}
use ieee.Agent.Naming.{named, cmdu_type_to_string-named}
use ieee.Agent.Handling.{handled}
use ieee.Agent.Loop.{Receive, rounds}
use ieee.Agent.Rounds.{IsReceive, IsBuffer, receive_packet-IsReceive, rounds-ReturnsOrdered}
use ieee.Agent.Arrivals.{arrive}
use ieee.Agent.Reactions.{Reactions, rounds-Reactions}
use ieee.Prelude.{map}
use ieee.Controller.{main}
use ieee.Controller.Run.{main_lines, sent_agent, main-Does}
use ieee.Tests.Messages.{hello, hello_bytes, hello-IsValid, hello_bytes-AllByte, pack-hello}

abbrev pub idle : World
idle = record {
  agent = record {
    iface_manager = record { interface_name = "eth0"; socket_fd = negsuc 0 };
    next_message_id = 65535;
  };
  has_logger = false;
  events = [];
}

em_debug-Logs_example : Logs (em_debug "text" []) (log debug "text" [] ∷ [])
em_debug-Logs_example = em_debug-Logs "text" []

handle_cmdu-Logs_example : Logs (handle_cmdu hello) (
    received_line hello ∷ log debug "Ieee1905Agent: Processing Topology Discovery Request." [] ∷ [])
handle_cmdu-Logs_example = handle_cmdu-Logs hello

handle_received-IsDealtWith_example :
    IsDealtWith (take 16 hello_bytes) (handle_received 16 hello_bytes idle) idle
handle_received-IsDealtWith_example =
    handle_received-IsDealtWith 16 hello_bytes idle hello_bytes-AllByte (omega arith)

handle_received-pack_example :
    handle_received 17 (hello_bytes ++ (0 ∷ 0 ∷ [])) idle ≡ handle_cmdu hello idle
handle_received-pack_example =
    handle_received-pack hello hello_bytes (0 ∷ 0 ∷ []) 17 idle hello-IsValid pack-hello
      (omega arith) (omega arith)

packets-sends_eq_iff_example :
    (ps : List (List ℕ)) × (packets (sends 3 idle).1.events ≡ packets idle.events ++ ps)
    × (length ps ≡ 3)
    × ((get_elem? ps 0 ≡ get_elem? ps 1) ↔ (◌≡◌ {A = ℕ} (0 % 65536) (1 % 65536)))
packets-sends_eq_iff_example =
    packets-sends_eq_iff 3 0 1 idle (omega arith) (omega arith) (omega arith)

send_topology_discovery-after_send_example : send_topology_discovery idle ≡ (ok tt, after_send idle)
send_topology_discovery-after_send_example = send_topology_discovery-after_send idle (omega arith)

abbrev session : List Call
session =
    new "eth0"
    ∷ discover
    ∷ say topology_query
    ∷ listen 2
    ∷ receive 16 hello_bytes
    ∷ handle hello
    ∷ destroy
    ∷ []

idle-IsConsistent : IsConsistent idle
unfolding scan
idle-IsConsistent = refl

run_all-ReturnsOrdered_example : ReturnsOrdered (λ _. Unit {0}) (run_all session idle)
run_all-ReturnsOrdered_example =
    run_all-ReturnsOrdered session idle
      (tt, (tt, (tt, (tt, ((hello_bytes-AllByte, omega arith), (tt, (tt, tt)))))))
      (idle-IsConsistent, omega arith)

-- An interface that receives two bytes and leaves them unchanged.
two_received : Receive
two_received rx_buffer = pure (pos 2, rx_buffer)

two_received-IsReceive : IsReceive 2 two_received
unfolding two_received
two_received-IsReceive = record {
  len = λ b. pos 2;
  received = λ b. b;
  outcome = λ b w. refl;
  buffers = λ b h. h;
  within = λ b h. omega (arith, h.1);
}

rounds-ReturnsOrdered_example :
    ReturnsOrdered (IsBuffer 2) (rounds (two_received ∷ receive_packet ∷ []) (7 ∷ 8 ∷ []) idle)
rounds-ReturnsOrdered_example =
    rounds-ReturnsOrdered 2 (two_received ∷ receive_packet ∷ []) (7 ∷ 8 ∷ []) idle
      (two_received-IsReceive, (receive_packet-IsReceive 2, tt)) (omega arith, refl)
      (idle-IsConsistent, omega arith)

rounds-Reactions_example :
    (b : List ℕ) × (v : World) × (rounds
        (map arrive (hello_bytes ∷ [] ∷ (7 ∷ []) ∷ []))
        (replicate 32 0)
        idle
      ≡ (ok b, v))
    × IsBuffer 32 b
    × Reactions idle (hello_bytes ∷ [] ∷ (7 ∷ []) ∷ []) v
rounds-Reactions_example =
    rounds-Reactions 32 (hello_bytes ∷ [] ∷ (7 ∷ []) ∷ []) (replicate 32 0) idle
      (
        (hello_bytes-AllByte, omega arith),
        ((tt, omega arith), (((omega arith, tt), omega arith), tt)),
      )
      (omega arith, refl)

main-Does_example :
    Does
      (main ("simple_controller" ∷ "wlan0" ∷ []))
      idle
      0
      (main_lines "wlan0")
      (sent_agent "wlan0")
main-Does_example = main-Does ("simple_controller" ∷ "wlan0" ∷ []) idle

cmdu_type_to_string-named_example :
    ((cmdu_type_to_string 0x8001 ≢ "UNKNOWN_CMDU_TYPE") ↔ (named 0x8001 ≡ true))
    × (handled 0x8001 ≡ true → named 0x8001 ≡ true)
    × ((u : ℕ)
        → named 0x8001 ≡ true
        → cmdu_type_to_string 0x8001 ≡ cmdu_type_to_string u
        → 0x8001 ≡ u)
    × (cmdu_type_to_string 0x8001 ≡ "AP_CAPABILITY_QUERY")
unfolding switch
cmdu_type_to_string-named_example = cmdu_type_to_string-named 0x8001
