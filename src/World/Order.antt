-- ===== src/World/Order.antt =====
-- The order of the logger's events: it is created once, before its first use.
use ieee.Prelude.{
  ◌≡◌, refl, ◌∙◌, Bool, true, false, if◌then◌else◌, All, List, [], ◌∷◌, ◌++◌, Option, none, some,
  String,
}
use ieee.World.{World, Event, stdout_color_mt, set_level, flush_on, log, cerr, transmit, emit}
use ieee.World.Effects.{logged, init_events}

-- Reading the events in order: `none` at a second creation of the logger and at a use of the
-- logger before its creation; otherwise whether it was created.
abbrev scan_event : Bool → Event → Option Bool
scan_event created (stdout_color_mt name) = if created then none else some true
scan_event created (set_level l) = if created then some true else none
scan_event created (flush_on l) = if created then some true else none
scan_event created (log l f a) = if created then some true else none
scan_event created (cerr s t) = some created
scan_event created (transmit p m) = some created

abbrev then_scan : Option Bool → (Bool → Option Bool) → Option Bool
then_scan none f = none
then_scan (some b) f = f b

unfoldable pub scan : Bool → List Event → Option Bool
scan created [] = some created
scan created (e ∷ es) = then_scan (scan_event created e) λ b. scan b es

pub scan-append :
    (created : Bool) (xs ys : List Event)
    → scan created (xs ++ ys) ≡ then_scan (scan created xs) (λ b. scan b ys)
unfolding scan
scan-append created [] ys = refl
scan-append created (x ∷ xs) ys = go (scan_event created x) (λ b. scan-append b xs ys)
  where
    go :
        (o : Option Bool)
        → ((b : Bool) → scan b (xs ++ ys) ≡ then_scan (scan b xs) (λ b'. scan b' ys))
        → then_scan o (λ b. scan b (xs ++ ys))
          ≡ then_scan (then_scan o (λ b. scan b xs)) (λ b. scan b ys)
    go none ih = refl
    go (some b) ih = ih b

-- The logger was created once, before its first use, if `g_logger` is set, and never otherwise.
abbrev pub IsConsistent : World → Type 0
IsConsistent w = scan false w.events ≡ some w.has_logger

-- A log line or a packet.
abbrev pub IsLine : Event → Type 0
IsLine (log l f a) = Unit
IsLine (transmit p m) = Unit
IsLine _ = ⊥

scan_lines : (es : List Event) → All IsLine es → scan true es ≡ some true
unfolding scan
scan_lines [] h = refl
scan_lines (log l f a ∷ es) h = scan_lines es h.1
scan_lines (transmit p m ∷ es) h = scan_lines es h.1
scan_lines (stdout_color_mt n ∷ es) h = absurd h.0
scan_lines (set_level l ∷ es) h = absurd h.0
scan_lines (flush_on l ∷ es) h = absurd h.0
scan_lines (cerr a b ∷ es) h = absurd h.0

scan_logged :
    (created : Bool) (es : List Event)
    → scan true es ≡ some true
    → scan created ((if created then [] else init_events) ++ es) ≡ some true
unfolding scan
scan_logged true es h = h
scan_logged false es h = h

pub logged-IsConsistent :
    (es : List Event) (w : World) → All IsLine es → IsConsistent w → IsConsistent (logged es w)
logged-IsConsistent [] w h c = c
logged-IsConsistent (e ∷ es) w h c =
    scan-append false w.events _ ∙ rw c (scan_logged w.has_logger (e ∷ es) (scan_lines (e ∷ es) h))

pub cerr-IsConsistent :
    (a b : String) (w : World) → IsConsistent w → IsConsistent (emit (cerr a b) w).1
cerr-IsConsistent a b w c = scan-append false w.events (cerr a b ∷ []) ∙ rw c (unfold scan in refl)
