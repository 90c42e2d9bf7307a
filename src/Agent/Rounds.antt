-- ===== src/Agent/Rounds.antt =====
-- The receive loop over any interface that keeps the contract of `ReceivePacket`.
use ieee.Prelude.{ℕ, zero, suc, ◌≤◌, ◌≡◌, refl, arith, length, All, IsByte, List, [], ◌∷◌}
use ieee.Result.{ok}
use ieee.World.{World, ℤ, pos, negsuc}
use ieee.Interface.{receive_packet}
use ieee.Agent.Loop.{Receive, on_length, round, rounds}
use ieee.Agent.Order.{IsOrdered, ReturnsOrdered, handle_received-ReturnsOrdered}

-- The length that was received lies within the buffer.
abbrev Within : ℤ → List ℕ → Type 0
Within (pos n) rx_buffer = n ≤ length rx_buffer
Within (negsuc n) rx_buffer = Unit

abbrev pub IsBuffer : ℕ → List ℕ → Type 0
IsBuffer size rx_buffer = All IsByte rx_buffer × (length rx_buffer ≡ size)

-- What `recv` promises: it writes bytes within the buffer, and returns their number or an error.
pub record IsReceive (size : ℕ) (receive : Receive) : Type 0 where
  pub len : List ℕ → ℤ
  pub received : List ℕ → List ℕ
  pub outcome : (b : List ℕ) (w : World) → receive b w ≡ (ok (len b, received b), w)
  pub buffers : (b : List ℕ) → IsBuffer size b → IsBuffer size (received b)
  pub within : (b : List ℕ) → IsBuffer size b → Within (len b) (received b)

-- The interface of the repository keeps it.
pub receive_packet-IsReceive : (size : ℕ) → IsReceive size receive_packet
unfolding receive_packet
receive_packet-IsReceive size = record {
  len = λ b. pos 0;
  received = λ b. b;
  outcome = λ b w. refl;
  buffers = λ b h. h;
  within = λ b h. omega arith;
}

on_length-ReturnsOrdered :
    (len : ℤ) (rx_buffer : List ℕ) (w : World)
    → All IsByte rx_buffer
    → Within len rx_buffer
    → IsOrdered w
    → ReturnsOrdered (λ _. Unit {0}) (on_length len rx_buffer w)
unfolding on_length
on_length-ReturnsOrdered (pos zero) b w bytes fits o = (tt, w, refl, tt, o)
on_length-ReturnsOrdered (pos (suc n)) b w bytes fits o =
    handle_received-ReturnsOrdered (suc n) b w bytes fits o
on_length-ReturnsOrdered (negsuc n) b w bytes fits o = (tt, w, refl, tt, o)

round-ReturnsOrdered :
    (size : ℕ) (receive : Receive) (b : List ℕ) (w : World)
    → IsReceive size receive
    → IsBuffer size b
    → IsOrdered w
    → ReturnsOrdered (IsBuffer size) (round receive b w)
unfolding round
round-ReturnsOrdered size receive b w r h o =
    let h' : IsBuffer size (r.received b) = r.buffers b h in
    let (u, w', e, t, o') =
      on_length-ReturnsOrdered (r.len b) (r.received b) w h'.0 (r.within b h) o in
    (r.received b, w', rw (r.outcome b w, e) refl, h', o')

-- Any number of rounds returns, whatever the calls of `ReceivePacket` deliver within the buffer:
-- bytes of any content, an error or nothing. The buffer keeps its size and holds bytes, and the
-- logger stays in order.
pub rounds-ReturnsOrdered :
    (size : ℕ) (receives : List Receive) (b : List ℕ) (w : World)
    → All (IsReceive size) receives
    → IsBuffer size b
    → IsOrdered w
    → ReturnsOrdered (IsBuffer size) (rounds receives b w)
unfolding rounds
rounds-ReturnsOrdered size [] b w rs h o = (b, w, refl, h, o)
rounds-ReturnsOrdered size (receive ∷ receives) b w rs h o =
    let (b', w', e, h', o') = round-ReturnsOrdered size receive b w rs.0 h o in
    rw e (rounds-ReturnsOrdered size receives b' w' rs.1 h' o')
