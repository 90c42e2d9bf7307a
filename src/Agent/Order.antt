-- ===== src/Agent/Order.antt =====
-- The logger over a whole run of the agent: any sequence of its calls.
use ieee.Prelude.{
  if◌then◌else◌, ℕ, ◌≤◌, ◌≡◌, refl, inl, inr, arith, length, All, IsByte, IsU16, String, Bool, true,
  false, Option, none, some, List, [], ◌∷◌,
}
use ieee.Cmdu.{Cmdu}
use ieee.Result.{Result, ok}
use ieee.World.{World, M, Event, pure, ◌>>=◌, ◌>>◌, log, debug}
use ieee.World.Effects.{logged, Logs}
use ieee.Logger.Lines.{em_debug-Logs}
use ieee.Interface.{destruct}
use ieee.Agent.Announcing.{Announcement, announce, announced, announce-Logs}
use ieee.World.Order.{IsConsistent, IsLine, logged-IsConsistent, cerr-IsConsistent}
use ieee.Agent.Handlers.{processing_text, text_or}
use ieee.Agent.Discovery.{construct, send_topology_discovery}
use ieee.Agent.Sending.{send_lines, after_send, send_topology_discovery-after_send}
use ieee.Agent.Starting.{construct-Does, construct_lines, new_agent}
use ieee.Agent.Dispatch.{handle_cmdu}
use ieee.Agent.Handling.{handle_cmdu-Logs, handled, handler_lines, received_line, unhandled_line}
use ieee.Agent.Loop.{handle_received, start}
use ieee.Agent.Receiving.{handle_received-IsDealtWith, after_error, start-rounds}

-- A call from outside, with its arguments: of the constructor, of the destructor, of a method that
-- sends, of `HandleCmdu`, of a number of rounds of `Start`, or of the body of its loop.
pub data Call : Type 0 where
  new : String → Call
  destroy : Call
  discover : Call
  say : Announcement → Call
  handle : Cmdu → Call
  listen : ℕ → Call
  receive : ℕ → List ℕ → Call

abbrev pub run : Call → M (Unit {0})
run (new interface_name) = construct interface_name
run destroy = destruct
run discover = send_topology_discovery
run (say a) = announce a
run (handle c) = handle_cmdu c
run (listen n) = start n >>= λ _. pure tt
run (receive len rx_buffer) = handle_received len rx_buffer

-- The calls in sequence.
abbrev pub run_all : List Call → M (Unit {0})
run_all [] = pure tt
run_all (call ∷ calls) = run call >> run_all calls

-- What is received are bytes, and not more than the buffer holds.
abbrev pub IsCall : Call → Type 0
IsCall (receive len rx_buffer) = All IsByte rx_buffer × (len ≤ length rx_buffer)
IsCall _ = Unit

pub handler_lines-AllIsLine : (c : Cmdu) → All IsLine (handler_lines c)
handler_lines-AllIsLine c = go (handled c.type) (processing_text c.type)
  where
    go :
        (b : Bool) (t : Option String)
        → All IsLine (if b then text_or t [] else unhandled_line c ∷ [])
    go true none = tt
    go true (some s) = (tt, tt)
    go false t = (tt, tt)

abbrev pub IsOrdered : World → Type 0
IsOrdered w = IsConsistent w × IsU16 w.agent.next_message_id

abbrev started : List Event
started = log debug "Ieee1905Agent: Starting main loop..." [] ∷ []

logged-agent : (es : List Event) (w : World) → (logged es w).agent ≡ w.agent
logged-agent [] w = refl
logged-agent (e ∷ es) w = refl

pub logged-IsOrdered :
    (es : List Event) (w : World) → All IsLine es → IsOrdered w → IsOrdered (logged es w)
logged-IsOrdered es w h o = (logged-IsConsistent es w h o.0, rw (logged-agent es w) o.1)

-- A call that returns and leaves the world in order.
abbrev pub ReturnsOrdered : {A : Type 0} → (A → Type 0) → Result A × World → Type 0
ReturnsOrdered {A} P outcome = (a : A) × (w : World) × (outcome ≡ (ok a, w)) × P a × IsOrdered w

Logs-ReturnsOrdered :
    (m : M (Unit {0})) (es : List Event) (w : World)
    → Logs m es
    → All IsLine es
    → IsOrdered w
    → ReturnsOrdered (λ _. Unit {0}) (m w)
Logs-ReturnsOrdered m es w l h o = (tt, logged es w, l.runs w, tt, logged-IsOrdered es w h o)

handle_cmdu-ReturnsOrdered :
    (c : Cmdu) (w : World) → IsOrdered w → ReturnsOrdered (λ _. Unit {0}) (handle_cmdu c w)
handle_cmdu-ReturnsOrdered c w o =
    Logs-ReturnsOrdered (handle_cmdu c) (received_line c ∷ handler_lines c) w (handle_cmdu-Logs c)
      (tt, handler_lines-AllIsLine c) o

construct-ReturnsOrdered :
    (name : String) (w : World) → IsOrdered w → ReturnsOrdered (λ _. Unit {0}) (construct name w)
construct-ReturnsOrdered name w o = (
  tt,
  record (logged (construct_lines name) w) { agent = new_agent name },
  (construct-Does name w).runs,
  tt,
  (logged-IsConsistent (construct_lines name) w (tt, (tt, tt)) o.0, omega arith),
)

send_topology_discovery-ReturnsOrdered :
    (w : World) → IsOrdered w → ReturnsOrdered (λ _. Unit {0}) (send_topology_discovery w)
send_topology_discovery-ReturnsOrdered w o = (
  tt,
  after_send w,
  send_topology_discovery-after_send w o.1,
  tt,
  (
    logged-IsConsistent (send_lines w.agent.next_message_id) w (tt, (tt, (tt, tt))) o.0,
    omega arith,
  ),
)

pub handle_received-ReturnsOrdered :
    (len : ℕ) (rx_buffer : List ℕ) (w : World)
    → All IsByte rx_buffer
    → len ≤ length rx_buffer
    → IsOrdered w
    → ReturnsOrdered (λ _. Unit {0}) (handle_received len rx_buffer w)
handle_received-ReturnsOrdered len rx_buffer w bytes fits o =
    elim (handle_received-IsDealtWith len rx_buffer w bytes fits) [
      | inl (c, f, e) ↦ rw e (handle_cmdu-ReturnsOrdered c w o)
      | inr (what, n, e) ↦ (
        tt,
        after_error what w,
        e,
        tt,
        (cerr-IsConsistent "Error parsing CMDU: " what w o.0, o.1),
      )
    ]

run-ReturnsOrdered :
    (call : Call) (w : World)
    → IsCall call
    → IsOrdered w
    → ReturnsOrdered (λ _. Unit {0}) (run call w)
run-ReturnsOrdered (new name) w h o = construct-ReturnsOrdered name w o
run-ReturnsOrdered destroy w h o =
    unfold destruct in
    Logs-ReturnsOrdered destruct _ w (em_debug-Logs "InterfaceManager: Shutdown complete." [])
      (tt, tt) o
run-ReturnsOrdered discover w h o = send_topology_discovery-ReturnsOrdered w o
run-ReturnsOrdered (say a) w h o =
    Logs-ReturnsOrdered (announce a) (log debug (announced a) [] ∷ []) w (announce-Logs a) (tt, tt)
      o
run-ReturnsOrdered (handle c) w h o = handle_cmdu-ReturnsOrdered c w o
run-ReturnsOrdered (listen n) w h o =
    rw (start-rounds n w) (tt, logged started w, refl, tt, logged-IsOrdered started w (tt, tt) o)
run-ReturnsOrdered (receive len rx_buffer) w h o =
    handle_received-ReturnsOrdered len rx_buffer w h.0 h.1 o

-- Any sequence of calls of the agent, of which those that receive get bytes and a length within
-- the buffer, returns from a world with a 16-bit message id, and the logger stays in order: if it
-- was created at most once and before its first use, and `g_logger` was set exactly if it was, then
-- this holds afterwards. The message id has 16 bits afterwards.
pub run_all-ReturnsOrdered :
    (calls : List Call) (w : World)
    → All IsCall calls
    → IsOrdered w
    → ReturnsOrdered (λ _. Unit {0}) (run_all calls w)
run_all-ReturnsOrdered [] w h o = (tt, w, refl, tt, o)
run_all-ReturnsOrdered (call ∷ calls) w h o =
    let (u, w', e, t, o') = run-ReturnsOrdered call w h.0 o in
    rw e (run_all-ReturnsOrdered calls w' h.1 o')
