-- ===== src/Network/Waiting.antt =====
-- The ids of the sends, and the packets on the link.
use ieee.Prelude.{ℕ, zero, suc, ◌+◌, ◌≡◌, refl, ap, IsU16, u16, All, List, [], ◌∷◌, ◌++◌, map}
use ieee.Result.{Result, ok, err}
use ieee.World.{World, continue}
use ieee.Agent.Discovery.{send_topology_discovery}
use ieee.Agent.Sending.{sends, discovery_bytes}

-- The ids of `n` sends from a counter.
abbrev pub sent_ids : ℕ → ℕ → List ℕ
sent_ids id zero = []
sent_ids id (suc n) = sent_ids id n ++ (u16 (id + n) ∷ [])

sends_more_of :
    (r : Result (Unit {0}) × World) (n : ℕ) (w' w'' : World)
    → ((w : World) → sends n w ≡ (ok tt, w') → sends (suc n) w ≡ (ok tt, w''))
    → continue r (λ _. sends n) ≡ (ok tt, w')
    → continue r (λ _. sends (suc n)) ≡ (ok tt, w'')
sends_more_of (ok u, w) n w' w'' more e = more w e
sends_more_of (err x, w) n w' w'' more e = cc

-- One more send at the end.
pub sends_more :
    (n : ℕ) (w w' w'' : World)
    → sends n w ≡ (ok tt, w')
    → send_topology_discovery w' ≡ (ok tt, w'')
    → sends (suc n) w ≡ (ok tt, w'')
sends_more zero w w' w'' e f =
    let same : w ≡ w' = ap (λ (r : Result (Unit {0}) × World). r.1) e in rw (same, f) refl
sends_more (suc n) w w' w'' e f =
    sends_more_of (send_topology_discovery w) n w' w'' (λ v g. sends_more n v w' w'' g f) e

-- The first packet on the link.
pub first_waiting :
    (ids : List ℕ) (packet : List ℕ) (later : List (List ℕ))
    → packet ∷ later ≡ map discovery_bytes ids
    → (id : ℕ) × (ys : List ℕ) × (ids ≡ id ∷ ys)
      × (packet ≡ discovery_bytes id)
      × (later ≡ map discovery_bytes ys)
first_waiting [] packet later e = cc
first_waiting (id ∷ ids) packet later e = (id, ids, refl, cc, cc)

-- A packet on the link, with what is before and behind it.
pub split_waiting :
    (ids : List ℕ) (before : List (List ℕ)) (packet : List ℕ) (later : List (List ℕ))
    → before ++ (packet ∷ later) ≡ map discovery_bytes ids
    → (xs : List ℕ) × (id : ℕ) × (ys : List ℕ) × (ids ≡ xs ++ (id ∷ ys))
      × (before ≡ map discovery_bytes xs)
      × (packet ≡ discovery_bytes id)
      × (later ≡ map discovery_bytes ys)
split_waiting ids [] packet later e =
    let (id, ys, all, one, back) = first_waiting ids packet later e in
    ([], id, ys, all, refl, one, back)
split_waiting [] (b ∷ before) packet later e = cc
split_waiting (id ∷ ids) (b ∷ before) packet later e =
    let (xs, i, ys, all, front, one, back) = split_waiting ids before packet later (cc) in
    (id ∷ xs, i, ys, ap (◌∷◌ id) all, cc, one, back)

pub same_outcome :
    {b b' : List ℕ} {w w' : World}
    → ◌≡◌ {A = Result (List ℕ) × World} (ok b, w) (ok b', w')
    → (b ≡ b') × (w ≡ w')
same_outcome e = (cc, cc)

pub All-remove_middle :
    (xs : List ℕ) (i : ℕ) (ys : List ℕ) → All IsU16 (xs ++ (i ∷ ys)) → All IsU16 (xs ++ ys)
All-remove_middle [] i ys h = h.1
All-remove_middle (x ∷ xs) i ys h = (h.0, All-remove_middle xs i ys h.1)
