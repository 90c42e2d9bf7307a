-- ===== src/Agent/Loop.antt =====
-- `Start` of src/agent.cpp: the loop that receives.
use ieee.Result.{Result, ok, err, out_of_bounds}
use ieee.Prelude.{ltb, if◌then◌else◌, length, ℕ, zero, suc, take, replicate, List, [], ◌∷◌}
use ieee.Parser.{parse}
use ieee.World.{M, pure, lift, try, emit, cerr, ◌>>=◌, ◌>>◌, ℤ, pos, negsuc}
use ieee.Logger.{em_debug}
use ieee.Interface.{receive_packet}
use ieee.Agent.Dispatch.{handle_cmdu}

-- The vector of the first `len` elements; a range that ends past the buffer is a fault.
unfoldable pub first_elements : ℕ → List ℕ → Result (List ℕ)
first_elements len rx_buffer =
    if ltb (length rx_buffer) len then err out_of_bounds else ok (take len rx_buffer)

-- The `try` block and its `catch`, on the first `len` bytes of the buffer.
unfoldable pub handle_received : ℕ → List ℕ → M (Unit {0})
handle_received len rx_buffer =
    try
      (do
        received_data ← lift (first_elements len rx_buffer)
        cmdu ← lift (parse received_data)
        handle_cmdu cmdu)
      (λ what. emit (cerr "Error parsing CMDU: " what))

-- `if (len > 0)`.
unfoldable pub on_length : ℤ → List ℕ → M (Unit {0})
on_length (pos zero) rx_buffer = pure tt
on_length (pos (suc n)) rx_buffer = handle_received (suc n) rx_buffer
on_length (negsuc n) rx_buffer = pure tt

-- A call of `ReceivePacket`: the length that it returns, and the buffer behind it.
abbrev pub Receive : Type 0
Receive = List ℕ → M (ℤ × List ℕ)

-- One round of the loop, with its call of `ReceivePacket`. The buffer is its only variable.
unfoldable pub round : Receive → List ℕ → M (List ℕ)
round receive rx_buffer = do
  (len, received) ← receive rx_buffer
  on_length len received
  pure received

-- The loop has no exit: these are its rounds, one for each of the calls.
unfoldable pub rounds : List Receive → List ℕ → M (List ℕ)
rounds [] rx_buffer = pure rx_buffer
rounds (receive ∷ receives) rx_buffer = do
  received ← round receive rx_buffer
  rounds receives received

-- `Start`, for a given number of rounds.
unfoldable pub start : ℕ → M (List ℕ)
start n = do
  em_debug "Ieee1905Agent: Starting main loop..." []
  rounds (replicate n receive_packet) (replicate 2048 0)
