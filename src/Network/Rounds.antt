-- ===== src/Network/Rounds.antt =====
-- One round of the receiver's loop on what the link delivers.
use ieee.Prelude.{
  ℕ, ◌≡◌, refl, sym, ap, ◌∙◌, arith, IsU16, IsByte, All, length, length-append, drop, append_assoc,
  append-nil, List, [], ◌∷◌, ◌++◌,
}
use ieee.Result.{ok}
use ieee.Cmdu.{Cmdu}
use ieee.Parser.{parse}
use ieee.Parser.Frame.{parse_frame}
use ieee.Parser.Errors.{parse_malformed}
use ieee.World.{World}
use ieee.World.Effects.{logged}
use ieee.Agent.Handling.{handle_cmdu-Logs, handler_lines, received_line}
use ieee.Agent.Sending.{
  discovery, discovery_bytes, discovery_bytes_size, discovery-IsValid, pack-discovery,
}
use ieee.Agent.Loop.{round}
use ieee.Agent.Receiving.{handle_received-pack}
use ieee.Agent.Arrivals.{arrive, on_length_pos}
use ieee.Agent.Reactions.{refilled, Reaction, quiet, handled, refused, round-Reaction}
use ieee.Network.{received_ids, id_of, discovery_ids}
use ieee.Network.Ids.{received_ids-append, received_ids-logged, received_ids-handler_lines}

-- A padded Topology Discovery is logged with its id and handled, and nothing else happens.
pub round-discovery :
    (id : ℕ) (pad b : List ℕ) (w : World)
    → IsU16 id
    → let bytes = discovery_bytes id ++ pad in
      round (arrive bytes) b w ≡ (
        ok (refilled bytes b),
        logged (received_line (discovery id) ∷ handler_lines (discovery id)) w,
      )
unfolding round
round-discovery id pad b w h =
    rw
      (
        on_length_pos (length bytes) (refilled bytes b) w
            (omega (arith, length-append (discovery_bytes id) pad, discovery_bytes_size id)),
        append_assoc (discovery_bytes id) pad (drop (length bytes) b),
        handle_received-pack (discovery id) (discovery_bytes id) (pad ++ drop (length bytes) b)
            (length bytes) w (discovery-IsValid id h) (pack-discovery id h)
            (omega (arith, length-append (discovery_bytes id) pad))
            (omega (
              arith,
              length-append (discovery_bytes id) pad,
              length-append (discovery_bytes id) (pad ++ drop (length bytes) b),
              length-append pad (drop (length bytes) b),
            )),
        (handle_cmdu-Logs (discovery id)).runs w,
      )
      refl
  where
    bytes : List ℕ
    bytes = discovery_bytes id ++ pad

pub received_ids-discovery :
    (id : ℕ) (w : World)
    → received_ids (logged (received_line (discovery id) ∷ handler_lines (discovery id)) w).events
      ≡ received_ids w.events ++ (id ∷ [])
received_ids-discovery id w =
    received_ids-logged (received_line (discovery id) ∷ handler_lines (discovery id)) w
    ∙ ap (λ (is : List ℕ). received_ids w.events ++ (id ∷ is))
        (received_ids-handler_lines (discovery id))

received_ids_line : (c : Cmdu) → received_ids (received_line c ∷ handler_lines c) ≡ id_of (ok c)
received_ids_line c = rw (received_ids-handler_lines c) (append-nil _)

received_ids-Reaction :
    {bytes : List ℕ} {w v : World}
    → Reaction w bytes v
    → All IsByte bytes
    → received_ids v.events ≡ received_ids w.events ++ discovery_ids bytes
received_ids-Reaction {w} quiet h = unfold parse in sym (append-nil _)
received_ids-Reaction {w} (handled bytes c f) h =
    received_ids-logged (received_line c ∷ handler_lines c) w
    ∙ rw (parse_frame bytes c f) (ap (◌++◌ (received_ids w.events)) (received_ids_line c))
received_ids-Reaction {w} (refused bytes what some wrong) h =
    received_ids-append w.events _ ∙ rw (parse_malformed bytes what h wrong)

-- Bytes add the id of the Topology Discovery that they are, and nothing if they are none.
pub round_other :
    (bytes b : List ℕ) (w : World)
    → All IsByte bytes
    → (v : World) × (round (arrive bytes) b w ≡ (ok (refilled bytes b), v))
      × (received_ids v.events ≡ received_ids w.events ++ discovery_ids bytes)
round_other bytes b w h =
    let (v, ran, reaction) = round-Reaction bytes b w h in
    (v, ran, received_ids-Reaction reaction h)
