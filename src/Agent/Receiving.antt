-- ===== src/Agent/Receiving.antt =====
-- What the receive loop does with the bytes of a packet.
use ieee.Prelude.{
  le→ltb, ℕ, zero, suc, ◌≤◌, ◌≡◌, ◌⊎◌, inl, inr, refl, ap, arith, length, length-append,
  take-append, take, replicate, All, All-take, IsByte, String, List, [], ◌∷◌, ◌++◌,
}
use ieee.Result.{Result, ok, err, runtime_error}
use ieee.Cmdu
use ieee.Cmdu.{Cmdu}
use ieee.Cmdu.Ending.{up_to_end}
use ieee.Serializer.{pack}
use ieee.Parser.{parse}
use ieee.Parser.Frame.{IsFrame, parse-eq-ok_iff}
use ieee.Parser.Errors.{IsMalformed, parse-cases, parse_malformed}
use ieee.Parser.RoundTrip.{parse-pack}
use ieee.World.{World, M, emit, cerr, try, lift, ◌>>=◌, debug, log}
use ieee.World.Effects.{logged}
use ieee.Logger.Lines.{em_debug-Logs}
use ieee.Interface.{receive_packet}
use ieee.Agent.Dispatch.{handle_cmdu}
use ieee.Agent.Handling.{handle_cmdu-Logs}
use ieee.Agent.Loop.{first_elements, handle_received, start, rounds, round, on_length}

-- The `try` block behind the parser's result.
abbrev guarded : Result Cmdu → M (Unit {0})
guarded r = try (lift r >>= handle_cmdu) (λ what. emit (cerr "Error parsing CMDU: " what))

guarded-ok : (c : Cmdu) (w : World) → guarded (ok c) w ≡ handle_cmdu c w
guarded-ok c w = rw ((handle_cmdu-Logs c).runs w) refl

-- The world after a packet was refused.
abbrev pub after_error : String → World → World
after_error what w = record w { events = w.events ++ (cerr "Error parsing CMDU: " what ∷ []) }

-- The packet is a frame and its message is handled, or something is wrong with it, and nothing but
-- the line on std::cerr that says so comes of it.
abbrev pub IsDealtWith : List ℕ → Result (Unit {0}) × World → World → Type 0
IsDealtWith packet outcome w =
    ((c : Cmdu) × IsFrame packet c × (outcome ≡ handle_cmdu c w))
    ⊎ ((what : String) × IsMalformed packet what × (outcome ≡ (ok tt, after_error what w)))

guarded-IsDealtWith :
    (packet : List ℕ) (w : World)
    → All IsByte packet
    → IsDealtWith packet (guarded (parse packet) w) w
guarded-IsDealtWith packet w h = elim (parse-cases packet h) [
  | inl (c, parsed) ↦ inl (c, (parse-eq-ok_iff packet c h).0 parsed, rw parsed (guarded-ok c w))
  | inr (what, wrong) ↦ inr (what, wrong, rw (parse_malformed packet what h wrong) refl)
]

first_elements_lem :
    (len : ℕ) (rx_buffer : List ℕ)
    → len ≤ length rx_buffer
    → first_elements len rx_buffer ≡ ok (take len rx_buffer)
unfolding first_elements
first_elements_lem len rx_buffer h = rw (le→ltb (length rx_buffer) len h)

-- On a buffer of at least `len` bytes, the body of the receive loop never lets an exception escape:
-- either the first `len` bytes are a frame of a message, and what happens is what `HandleCmdu` does
-- with it, or something is wrong with them, and a line on std::cerr, which says what it is, is all
-- that happens.
pub handle_received-IsDealtWith :
    (len : ℕ) (rx_buffer : List ℕ) (w : World)
    → All IsByte rx_buffer
    → len ≤ length rx_buffer
    → IsDealtWith (take len rx_buffer) (handle_received len rx_buffer w) w
unfolding handle_received
handle_received-IsDealtWith len rx_buffer w h fits =
    rw (first_elements_lem len rx_buffer fits)
      (guarded-IsDealtWith (take len rx_buffer) w (All-take IsByte len rx_buffer h))

take_more :
    (xs ys : List ℕ) (n : ℕ) → length xs ≤ n → (more : List ℕ) × (take n (xs ++ ys) ≡ xs ++ more)
take_more [] ys n h = (take n ys, refl)
take_more (x ∷ xs) ys zero h = absurd (omega arith)
take_more (x ∷ xs) ys (suc n) h =
    let (more, same) = take_more xs ys n (omega arith) in (more, ap (λ (zs : List ℕ). x ∷ zs) same)

-- A packed valid message at the front of the buffer, with `len` not less than its
-- size and not more than the buffer's, is handled
-- as the message with its TLVs up to the first END_OF_MESSAGE, whatever is behind it.
pub handle_received-pack :
    (c : Cmdu) (packet rest : List ℕ) (len : ℕ) (w : World)
    → Cmdu.IsValid c
    → pack c ≡ ok packet
    → length packet ≤ len
    → len ≤ length (packet ++ rest)
    → handle_received len (packet ++ rest) w ≡ handle_cmdu (record c { tlvs = up_to_end c.tlvs }) w
unfolding handle_received
handle_received-pack c packet rest len w v p h fits =
    rw (first_elements_lem len (packet ++ rest) fits, front.1, parsed)
      (guarded-ok (record c { tlvs = up_to_end c.tlvs }) w)
  where
    front : (more : List ℕ) × (take len (packet ++ rest) ≡ packet ++ more)
    front = take_more packet rest len h

    parsed : parse (packet ++ front.0) ≡ ok (record c { tlvs = up_to_end c.tlvs })
    parsed = rw p at (parse-pack c front.0 v)

-- A packet that `Parse` accepts is handled as its message.
pub handle_received_parsed :
    (packet rest : List ℕ) (c : Cmdu) (w : World)
    → parse packet ≡ ok c
    → handle_received (length packet) (packet ++ rest) w ≡ handle_cmdu c w
unfolding handle_received
handle_received_parsed packet rest c w p =
    rw
      (
        first_elements_lem (length packet) (packet ++ rest)
            (omega (arith, length-append packet rest)),
        take-append packet rest,
        p,
      )
      (guarded-ok c w)

-- A packet that `Parse` refuses comes to one line on std::cerr.
pub handle_received_refused :
    (packet rest : List ℕ) (what : String) (w : World)
    → parse packet ≡ err (runtime_error what)
    → handle_received (length packet) (packet ++ rest) w ≡ (ok tt, after_error what w)
unfolding handle_received
handle_received_refused packet rest what w p =
    rw
      (
        first_elements_lem (length packet) (packet ++ rest)
            (omega (arith, length-append packet rest)),
        take-append packet rest,
        p,
      )
      refl

rounds-quiet :
    (n : ℕ) (rx_buffer : List ℕ) (w : World)
    → rounds (replicate n receive_packet) rx_buffer w ≡ (ok rx_buffer, w)
unfolding rounds round receive_packet on_length
rounds-quiet zero rx_buffer w = refl
rounds-quiet (suc n) rx_buffer w = rounds-quiet n rx_buffer w

-- As long as the interface receives nothing, which is all it does here, any number of rounds of
-- the loop logs the starting line only and keeps the buffer of 2048 zero bytes.
pub start-rounds :
    (n : ℕ) (w : World)
    → start n w
      ≡ (ok (replicate 2048 0), logged (log debug "Ieee1905Agent: Starting main loop..." [] ∷ []) w)
unfolding start
start-rounds n w =
    rw ((em_debug-Logs "Ieee1905Agent: Starting main loop..." []).runs w) (rounds-quiet n _ _)
