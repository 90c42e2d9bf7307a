-- ===== src/Network/Ids.antt =====
-- The ids in the log lines of an agent that receives.
use ieee.Prelude.{
  ◌≡◌, refl, sym, ◌∙◌, append_assoc, append-nil, Bool, true, false, Option, none, some, String,
  if◌then◌else◌, ap, List, [], ◌∷◌, ◌++◌,
}
use ieee.Cmdu.{Cmdu}
use ieee.World.{World, Event}
use ieee.World.Effects.{logged, init_events}
use ieee.Agent.Handlers.{processing_text, text_or}
use ieee.Agent.Handling.{handled, handler_lines, unhandled_line}
use ieee.Network.{received_ids, discovery_id}

pub received_ids-append :
    (xs ys : List Event) → received_ids (xs ++ ys) ≡ received_ids xs ++ received_ids ys
received_ids-append [] ys = refl
received_ids-append (x ∷ xs) ys =
    rw (received_ids-append xs ys)
      (sym (append_assoc (discovery_id x) (received_ids xs) (received_ids ys)))

received_ids_init :
    (created : Bool) (es : List Event)
    → received_ids ((if created then [] else init_events) ++ es) ≡ received_ids es
received_ids_init true es = refl
received_ids_init false es = refl

pub received_ids-logged :
    (es : List Event) (w : World)
    → received_ids (logged es w).events ≡ received_ids w.events ++ received_ids es
received_ids-logged [] w = sym (append-nil (received_ids w.events))
received_ids-logged (e ∷ es) w =
    received_ids-append w.events _
    ∙ ap (◌++◌ (received_ids w.events)) (received_ids_init w.has_logger (e ∷ es))

-- A handler's line has no id.
pub received_ids-handler_lines : (c : Cmdu) → received_ids (handler_lines c) ≡ []
received_ids-handler_lines c = go (handled c.type) (processing_text c.type)
  where
    go :
        (b : Bool) (t : Option String)
        → received_ids (if b then text_or t [] else unhandled_line c ∷ []) ≡ []
    go true none = refl
    go true (some s) = refl
    go false t = refl
