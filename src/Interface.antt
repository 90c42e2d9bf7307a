-- ===== src/Interface.antt =====
-- include/ieee1905_1/interface_manager.h and src/interface_manager.cpp: the packet interface. Its
-- socket code is commented out in the source, so that nothing is received. Of the packet that sending
-- is given it logs the size; the event `transmit`, where the commented `sendto` stands, keeps what it
-- is given.
use ieee.Prelude.{ℕ, String, Bool, true, length, List, [], ◌∷◌}
use ieee.World.{InterfaceManager, M, pure, emit, transmit, ◌>>◌, text, number, ℤ, pos, negsuc}
use ieee.Logger.{em_debug}

-- `m_socket_fd` is initialised to -1 and stays so.
unfoldable pub construct : String → M InterfaceManager
construct iface_name = do
  em_debug "InterfaceManager: Initialized for interface {}" (text iface_name ∷ [])
  pure (record { interface_name = iface_name; socket_fd = negsuc 0 })

unfoldable pub destruct : M (Unit {0})
destruct = em_debug "InterfaceManager: Shutdown complete." []

unfoldable pub send_packet : List ℕ → List ℕ → M Bool
send_packet buffer dest_mac = do
  emit (transmit buffer dest_mac)
  em_debug "InterfaceManager: Sending packet of size {}" (number (length buffer) ∷ [])
  pure true

-- The length that was received, and the buffer, which the source leaves as it is.
unfoldable pub receive_packet : List ℕ → M (ℤ × List ℕ)
receive_packet buffer = pure (pos 0, buffer)
