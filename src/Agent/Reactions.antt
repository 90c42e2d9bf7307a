-- ===== src/Agent/Reactions.antt =====
-- The receive loop on whatever bytes arrive.
use ieee.Prelude.{
  String, ℕ, suc, ◌≤◌, ◌≡◌, refl, ap, inl, inr, arith, IsByte, All, All-append, All-drop, length,
  length-append, length-drop, drop, map, List, [], ◌∷◌, ◌++◌, ◌∙◌,
}
use ieee.Result.{Result, ok}
use ieee.Cmdu.{Cmdu}
use ieee.Parser.Frame.{IsFrame, parse-eq-ok_iff}
use ieee.Parser.Errors.{IsMalformed, parse-cases, parse_malformed}
use ieee.World.{World, continue, pure}
use ieee.World.Effects.{logged}
use ieee.Agent.Handling.{handle_cmdu-Logs, handler_lines, received_line}
use ieee.Agent.Loop.{round, rounds, on_length, handle_received}
use ieee.Agent.Receiving.{handle_received_parsed, handle_received_refused, after_error}
use ieee.Agent.Rounds.{IsBuffer}
use ieee.Agent.Arrivals.{arrive}

-- The buffer behind the arrival.
abbrev pub refilled : List ℕ → List ℕ → List ℕ
refilled bytes b = bytes ++ drop (length bytes) b

pub refilled-IsBuffer :
    (size : ℕ) (bytes b : List ℕ)
    → All IsByte bytes
    → length bytes ≤ size
    → IsBuffer size b
    → IsBuffer size (refilled bytes b)
refilled-IsBuffer size bytes b h fits (all, n) = (
  All-append IsByte bytes (drop (length bytes) b) h (All-drop IsByte (length bytes) b all),
  omega (arith, length-append bytes (drop (length bytes) b), length-drop (length bytes) b),
)

-- What one round does to the world, by the bytes that arrived: nothing without bytes; the line of
-- the message and its handler's, if they are a frame; and otherwise a line on std::cerr that says
-- what is wrong with them.
pub data Reaction (w : World) : List ℕ → World → Type 0 where
  quiet : Reaction w [] w
  handled :
      (bytes : List ℕ) (c : Cmdu)
      → IsFrame bytes c
      → Reaction w bytes (logged (received_line c ∷ handler_lines c) w)
  refused :
      (bytes : List ℕ) (what : String)
      → 1 ≤ length bytes
      → IsMalformed bytes what
      → Reaction w bytes (after_error what w)

-- The rounds in sequence.
pub data Reactions : World → List (List ℕ) → World → Type 0 where
  end : {w : World} → Reactions w [] w
  after :
      {w v u : World} {bytes : List ℕ} {more : List (List ℕ)}
      → Reaction w bytes v
      → Reactions v more u
      → Reactions w (bytes ∷ more) u

handle_received-Reaction :
    (bytes rest : List ℕ) (w : World)
    → All IsByte bytes
    → 1 ≤ length bytes
    → (v : World) × (handle_received (length bytes) (bytes ++ rest) w ≡ (ok tt, v))
      × Reaction w bytes v
handle_received-Reaction bytes rest w b some = elim (parse-cases bytes b) [
  | inl (c, parsed) ↦ (
    _,
    handle_received_parsed bytes rest c w parsed ∙ (handle_cmdu-Logs c).runs w,
    handled bytes c ((parse-eq-ok_iff bytes c b).0 parsed),
  )
  | inr (what, wrong) ↦ (
    _,
    handle_received_refused bytes rest what w (parse_malformed bytes what b wrong),
    refused bytes what some wrong,
  )
]

pub round-Reaction :
    (bytes b : List ℕ) (w : World)
    → All IsByte bytes
    → (v : World) × (round (arrive bytes) b w ≡ (ok (refilled bytes b), v)) × Reaction w bytes v
unfolding round on_length
round-Reaction [] b w h = (w, refl, quiet)
round-Reaction (x ∷ bytes) b w h =
    let (v, ran, reaction) =
      handle_received-Reaction (x ∷ bytes) (drop (suc (length bytes)) b) w h (omega arith) in
    (
      v,
      ap (λ (r : Result (Unit {0}) × World). continue r (λ _. pure (refilled (x ∷ bytes) b))) ran,
      reaction,
    )

abbrev pub IsPacket : ℕ → List ℕ → Type 0
IsPacket size bytes = All IsByte bytes × (length bytes ≤ size)

-- Whatever bytes arrive in whatever rounds, as long as each arrival fits into the buffer, the loop
-- returns, the buffer keeps its size, and each round does what its bytes demand, in order and once:
-- a frame of a message is logged and handled as that message, other bytes are refused with the line
-- for what is wrong with them, and a round without bytes does nothing.
pub rounds-Reactions :
    (size : ℕ) (packets : List (List ℕ)) (b : List ℕ) (w : World)
    → All (IsPacket size) packets
    → IsBuffer size b
    → (b' : List ℕ) × (v : World) × (rounds (map arrive packets) b w ≡ (ok b', v))
      × IsBuffer size b'
      × Reactions w packets v
unfolding rounds
rounds-Reactions size [] b w h buffer = (b, w, refl, buffer, end)
rounds-Reactions size (bytes ∷ packets) b w h buffer =
    let (v, ran, reaction) = round-Reaction bytes b w h.0.0 in
    let (b', u, later, buffer', reactions) =
      rounds-Reactions size packets (refilled bytes b) v h.1
        (refilled-IsBuffer size bytes b h.0.0 h.0.1 buffer) in
    (b', u, rw ran later, buffer', after reaction reactions)
