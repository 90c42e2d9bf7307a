-- ===== src/Agent/Arrivals.antt =====
-- The receive loop on packets that arrive: every message is handled, in the order of arrival.
use ieee.Prelude.{
  String, ℕ, zero, suc, ◌≤◌, ◌<◌, ◌≡◌, refl, arith, length, length-append, length-drop, drop, All,
  List, [], ◌∷◌, ◌++◌,
}
use ieee.Result.{ok}
use ieee.Result.{err, runtime_error}
use ieee.Parser.{parse}
use ieee.Agent.Receiving.{handle_received_refused, after_error}
use ieee.Cmdu
use ieee.Cmdu.{Cmdu}
use ieee.Cmdu.Ending.{up_to_end}
use ieee.Serializer.{pack}
use ieee.Serializer.Wire.{wire, pack-wire}
use ieee.World.{World, pure, pos}
use ieee.World.Effects.{logged}
use ieee.Agent.Handling.{handle_cmdu-Logs, handler_lines, received_line}
use ieee.Agent.Loop.{Receive, on_length, round, rounds, handle_received}
use ieee.Agent.Receiving.{handle_received-pack}

-- A round in which a packet arrives, packed from a message or one that `Parse` refuses with a text,
-- or none.
pub data Arrival : Type 0 where
  message : Cmdu → List ℕ → Arrival
  refused : String → List ℕ → Arrival
  nothing : Arrival

abbrev packet_of : Arrival → List ℕ
packet_of (message c packet) = packet
packet_of (refused what packet) = packet
packet_of nothing = []

-- `recv` puts the bytes that arrive at the front of the buffer.
abbrev pub arrive : List ℕ → Receive
arrive bytes b = pure (pos (length bytes), bytes ++ drop (length bytes) b)

abbrev pub deliver : Arrival → Receive
deliver a = arrive (packet_of a)

abbrev pub deliveries : List Arrival → List Receive
deliveries [] = []
deliveries (a ∷ arrivals) = deliver a ∷ deliveries arrivals

-- The packet is what `Pack` returns for the message, or bytes that `Parse` refuses, and fits into
-- the buffer.
abbrev pub IsArrival : ℕ → Arrival → Type 0
IsArrival size (message c packet) = Cmdu.IsValid c × (pack c ≡ ok packet) × (length packet ≤ size)
IsArrival size (refused what packet) =
    (0 < length packet) × (parse packet ≡ err (runtime_error what)) × (length packet ≤ size)
IsArrival size nothing = Unit

-- What the round does to the world: a message is handled, a refused packet is reported.
abbrev pub after_arrival : Arrival → World → World
after_arrival (message c packet) w = logged (received_line c ∷ handler_lines c) w
after_arrival (refused what packet) w = after_error what w
after_arrival nothing w = w

abbrev pub after_arrivals : List Arrival → World → World
after_arrivals [] w = w
after_arrivals (a ∷ arrivals) w = after_arrivals arrivals (after_arrival a w)

packet_nonempty :
    (c : Cmdu) (packet : List ℕ) → Cmdu.IsValid c → pack c ≡ ok packet → 0 < length packet
packet_nonempty c packet v p =
    let same : packet ≡ wire c = cc (pack-wire c v) in rw same (omega arith)

pub on_length_pos :
    (n : ℕ) (b : List ℕ) (w : World) → 0 < n → on_length (pos n) b w ≡ handle_received n b w
unfolding on_length
on_length_pos zero b w h = absurd (omega arith)
on_length_pos (suc n) b w h = refl

packet_fits : (size : ℕ) (a : Arrival) → IsArrival size a → length (packet_of a) ≤ size
packet_fits size (message c packet) h = h.2
packet_fits size (refused what packet) h = h.2
packet_fits size nothing h = omega arith

round-deliver :
    (size : ℕ) (a : Arrival) (b : List ℕ) (w : World)
    → IsArrival size a
    → length b ≡ size
    → round (deliver a) b w ≡ (ok (packet_of a ++ drop (length (packet_of a)) b), after_arrival a w)
unfolding round
round-deliver size (message c packet) b w a h =
    rw
      (
        on_length_pos (length packet) (packet ++ drop (length packet) b) w
            (packet_nonempty c packet a.0 a.1),
        handle_received-pack c packet (drop (length packet) b) (length packet) w a.0 a.1
            (omega arith) (omega (arith, length-append packet (drop (length packet) b))),
        (handle_cmdu-Logs (record c { tlvs = up_to_end c.tlvs })).runs w,
      )
      refl
round-deliver size (refused what packet) b w a h =
    rw
      (
        on_length_pos (length packet) (packet ++ drop (length packet) b) w a.0,
        handle_received_refused packet (drop (length packet) b) what w a.1,
      )
      refl
round-deliver size nothing b w a h = unfold on_length in refl

-- Every packet that arrives is dealt with, in the order of arrival and once: over any sequence of
-- arrivals that fit into the buffer, of packed valid messages and packets that `Parse` refuses,
-- with empty rounds between them, the loop returns and the buffer keeps its size. Each message
-- leads to its line and its handler's, and each refused packet to its line on std::cerr.
pub rounds-deliveries :
    (size : ℕ) (arrivals : List Arrival) (b : List ℕ) (w : World)
    → All (IsArrival size) arrivals
    → length b ≡ size
    → (b' : List ℕ) × (length b' ≡ size)
      × (rounds (deliveries arrivals) b w ≡ (ok b', after_arrivals arrivals w))
unfolding rounds
rounds-deliveries size [] b w good h = (b, h, refl)
rounds-deliveries size (a ∷ arrivals) b w good h =
    let n : ℕ = length (packet_of a) in
    rw (round-deliver size a b w good.0 h) (
      rounds-deliveries size arrivals (packet_of a ++ drop n b) (after_arrival a w) good.1 (
        omega (
          arith,
          packet_fits size a good.0,
          length-append (packet_of a) (drop n b),
          length-drop n b,
        )))
