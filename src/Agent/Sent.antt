-- ===== src/Agent/Sent.antt =====
-- The packets that the sends of an agent hand to `SendPacket`.
use ieee.Prelude.{
  ℕ, zero, suc, ◌+◌, ◌<◌, ◌%◌, ◌≡◌, ◌↔◌, refl, sym, ap, ◌∙◌, arith, IsU16, u16, length, length-map,
  append_assoc, append-nil, Bool, true, false, if◌then◌else◌, Option, none, some, map, List, [],
  ◌∷◌, ◌++◌,
}
use ieee.World.{World, Event, transmit}
use ieee.World.Effects.{logged, init_events}
use ieee.Agent.Sending.{
  discovery_bytes, discovery_bytes-injective, send_lines, after_send, sends,
  send_topology_discovery-after_send,
}

abbrev packet_in : Event → List (List ℕ)
packet_in (transmit buffer dest_mac) = buffer ∷ []
packet_in _ = []

-- The packets that were handed to `SendPacket`, in the order of its calls.
abbrev pub packets : List Event → List (List ℕ)
packets [] = []
packets (e ∷ es) = packet_in e ++ packets es

packets-append : (xs ys : List Event) → packets (xs ++ ys) ≡ packets xs ++ packets ys
packets-append [] ys = refl
packets-append (x ∷ xs) ys =
    rw (packets-append xs ys) (sym (append_assoc (packet_in x) (packets xs) (packets ys)))

packets_init :
    (created : Bool) (es : List Event)
    → packets ((if created then [] else init_events) ++ es) ≡ packets es
packets_init true es = refl
packets_init false es = refl

packets-logged :
    (es : List Event) (w : World) → packets (logged es w).events ≡ packets w.events ++ packets es
packets-logged [] w = sym (append-nil (packets w.events))
packets-logged (e ∷ es) w =
    packets-append w.events _ ∙ ap (◌++◌ (packets w.events)) (packets_init w.has_logger (e ∷ es))

-- One send hands over one packet.
pub packets-after_send :
    (w : World)
    → packets (after_send w).events
      ≡ packets w.events ++ (discovery_bytes w.agent.next_message_id ∷ [])
packets-after_send w = packets-logged (send_lines w.agent.next_message_id) w

-- The ids of `n` sends from a counter.
abbrev ids_from : ℕ → ℕ → List ℕ
ids_from id zero = []
ids_from id (suc n) = id ∷ ids_from (u16 (id + 1)) n

length-ids_from : (id n : ℕ) → length (ids_from id n) ≡ n
length-ids_from id zero = refl
length-ids_from id (suc n) = ap suc (length-ids_from (u16 (id + 1)) n)

packets-sends :
    (n : ℕ) (w : World)
    → IsU16 w.agent.next_message_id
    → packets (sends n w).1.events
      ≡ packets w.events ++ map discovery_bytes (ids_from w.agent.next_message_id n)
packets-sends zero w h = sym (append-nil (packets w.events))
packets-sends (suc n) w h = rw (send_topology_discovery-after_send w h) (
    packets-sends n (after_send w) (omega arith)
    ∙ ap
        (λ (ps : List (List ℕ)).
          ps ++ map discovery_bytes (ids_from (u16 (w.agent.next_message_id + 1)) n))
        (packets-after_send w)
    ∙ append_assoc (packets w.events) (discovery_bytes w.agent.next_message_id ∷ [])
        (map discovery_bytes (ids_from (u16 (w.agent.next_message_id + 1)) n)))

-- The element at a position, counted from 0.
abbrev pub get_elem? : List (List ℕ) → ℕ → Option (List ℕ)
get_elem? [] i = none
get_elem? (x ∷ xs) zero = some x
get_elem? (x ∷ xs) (suc i) = get_elem? xs i

get_elem?-ids_from :
    (id n i : ℕ)
    → IsU16 id
    → i < n
    → get_elem? (map discovery_bytes (ids_from id n)) i ≡ some (discovery_bytes (u16 (id + i)))
get_elem?-ids_from id zero i h lt = absurd (omega arith)
get_elem?-ids_from id (suc n) zero h lt = ap (λ (k : ℕ). some (discovery_bytes k)) (omega arith)
get_elem?-ids_from id (suc n) (suc i) h lt =
    get_elem?-ids_from (u16 (id + 1)) n i (omega arith) (omega arith)
    ∙ ap (λ (k : ℕ). some (discovery_bytes k)) (omega arith)

-- Any number of calls of `SendTopologyDiscovery`, wherever the 16-bit counter stands, hand that many
-- packets to `SendPacket`, and two of them, counted from 0, are equal exactly when their positions
-- differ by a multiple of 65536.
pub packets-sends_eq_iff :
    (n i j : ℕ) (w : World)
    → IsU16 w.agent.next_message_id
    → i < n
    → j < n
    → (ps : List (List ℕ)) × (packets (sends n w).1.events ≡ packets w.events ++ ps)
      × (length ps ≡ n)
      × ((get_elem? ps i ≡ get_elem? ps j) ↔ (i % 65536 ≡ j % 65536))
packets-sends_eq_iff n i j w h hi hj = (
  map discovery_bytes (ids_from id n),
  packets-sends n w h,
  length-map discovery_bytes (ids_from id n) ∙ length-ids_from id n,
  rw (get_elem?-ids_from id n i h hi, get_elem?-ids_from id n j h hj)
      (
        λ e.
            let same : u16 (id + i) ≡ u16 (id + j) =
              discovery_bytes-injective _ _ (omega arith) (omega arith) (cc) in
            omega arith,
        λ e. ap (λ (k : ℕ). some (discovery_bytes k)) (omega arith),
      ),
)
  where
    id : ℕ
    id = w.agent.next_message_id
