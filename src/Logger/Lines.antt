-- ===== src/Logger/Lines.antt =====
-- A use of the logging macros: the line, after the creation of the logger if it is the first use.
use ieee.Prelude.{◌≡◌, arith, String, List, [], ◌∷◌, ◌++◌, append_assoc}
use ieee.Result.{ok}
use ieee.World.{
  World, Argument, log, Level, debug, warn, error, emit, ◌>>◌, stdout_color_mt, set_level, flush_on,
  Event,
}
use ieee.World.Effects.{Logs, logged}
use ieee.Logger.{get, em_debug, em_warn}

four_appends :
    (es : List Event) (a b c d : Event)
    → (((es ++ (a ∷ [])) ++ (b ∷ [])) ++ (c ∷ [])) ++ (d ∷ []) ≡ es ++ (a ∷ b ∷ c ∷ d ∷ [])
four_appends es a b c d = simp append_assoc

line :
    (l : Level) (f : String) (a : List Argument) (w : World)
    → (get >> emit (log l f a)) w ≡ (ok tt, logged (log l f a ∷ []) w)
unfolding get
line l f a w = ground (
  arith,
  four_appends w.events (stdout_color_mt "ieee1905_1") (set_level debug) (flush_on error)
      (log l f a),
)

-- EM_DEBUG returns and adds its line, behind the creation of the logger if there was none.
pub em_debug-Logs : (f : String) (a : List Argument) → Logs (em_debug f a) (log debug f a ∷ [])
unfolding em_debug
em_debug-Logs f a = record { runs = line debug f a }

pub em_warn-Logs : (f : String) (a : List Argument) → Logs (em_warn f a) (log warn f a ∷ [])
unfolding em_warn
em_warn-Logs f a = record { runs = line warn f a }
