-- ===== src/World.antt =====
-- What the methods of the agent read and write: the agent's own fields, the global logger and the
-- output. `M` is a C++ call on this state: it returns or throws, and keeps what it has written.
pub mod Effects
pub mod Order
use ieee.Prelude.{ℕ, zero, suc, String, Bool, List, [], ◌∷◌, ◌++◌}
use ieee.Result.{Error, Result, ok, err, length_error, runtime_error, invalid_argument}

pub data ℤ : Type 0 where
  pos : ℕ → ℤ
  negsuc : ℕ → ℤ

-- The levels of spdlog for which the program has a macro.
pub data Level : Type 0 where
  trace debug info warn error critical : Level

-- An argument of a format string.
pub data Argument : Type 0 where
  text : String → Argument
  number : ℕ → Argument

-- A call that leaves the program: into spdlog, onto std::cerr, or a packet that `SendPacket` is
-- given for its raw socket, with the bytes and the destination.
pub data Event : Type 0 where
  stdout_color_mt : String → Event
  set_level : Level → Event
  flush_on : Level → Event
  log : Level → String → List Argument → Event
  cerr : String → String → Event
  transmit : List ℕ → List ℕ → Event

-- include/ieee1905_1/interface_manager.h, the fields.
pub record InterfaceManager : Type 0 where
  pub interface_name : String
  pub socket_fd : ℤ

-- include/ieee1905_1/agent.h, the fields.
pub record Agent : Type 0 where
  pub iface_manager : InterfaceManager
  pub next_message_id : ℕ  -- uint16_t

-- `has_logger` says that `g_logger` is set. `events` are in the order of their calls.
pub record World : Type 0 where
  pub agent : Agent
  pub has_logger : Bool
  pub events : List Event

abbrev pub M : Type 0 → Type 0
M A = World → Result A × World

abbrev pub pure : {A : Type 0} → A → M A
pure a w = (ok a, w)

abbrev pub continue : {A B : Type 0} → Result A × World → (A → M B) → Result B × World
continue (ok a, w) f = f a w
continue (err e, w) f = (err e, w)

infixl 5 ◌>>=◌ ◌>>◌
abbrev pub ◌>>=◌ : {A B : Type 0} → M A → (A → M B) → M B
(m >>= f) w = continue (m w) f

abbrev pub ◌>>◌ : {B : Type 0} → M (Unit {0}) → M B → M B
m >> k = m >>= λ _. k

-- A call that touches none of this state.
abbrev pub lift : {A : Type 0} → Result A → M A
lift r w = (r, w)

abbrev pub emit : Event → M (Unit {0})
emit e w = (ok tt, record w { events = w.events ++ (e ∷ []) })

-- `catch (const std::exception& e)`: `handler` gets `e.what()`. The faults of the model pass.
abbrev handle : {A : Type 0} → Result A × World → (String → M A) → Result A × World
handle (ok a, w) handler = (ok a, w)
handle (err (length_error what), w) handler = handler what w
handle (err (runtime_error what), w) handler = handler what w
handle (err (invalid_argument what), w) handler = handler what w
handle (err e, w) handler = (err e, w)

abbrev pub try : {A : Type 0} → M A → (String → M A) → M A
try m handler w = handle (m w) handler

abbrev keep : {A : Type 0} → Result A → Result (Unit {0}) × World → Result A × World
keep r (ok u, w) = (r, w)
keep r (err e, w) = (err e, w)

abbrev unwind : {A : Type 0} → Result A × World → M (Unit {0}) → Result A × World
unwind (r, w) destructor = keep r (destructor w)

-- A scope that a destructor ends, after a return as after an exception.
abbrev pub scope : {A : Type 0} → M A → M (Unit {0}) → M A
scope m destructor w = unwind (m w) destructor
