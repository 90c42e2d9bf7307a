-- ===== src/Agent/Handling.antt =====
-- Which messages `HandleCmdu` handles, and what it does with them.
use ieee.Prelude.{
  ℕ, ◌≡◌, ◌∙◌, arith, leb, ◌==◌, ◌&&◌, ◌||◌, if◌then◌else◌, Bool, true, false, Option, none, some,
  String, List, [], ◌∷◌,
}
use ieee.Cmdu.{Cmdu}
use ieee.World.{Event, log, debug, warn, text, number}
use ieee.World.Effects.{Logs, Logs-append}
use ieee.Logger.Lines.{em_debug-Logs, em_warn-Logs}
use ieee.Agent.Names.{cmdu_type_to_string}
use ieee.Agent.Dispatch.{unhandled, handle_cmdu}
use ieee.Agent.Handlers.{
  processing_text, is_easymesh, text_or, is_some, is_some-processing_text, switch-Logs,
}

abbrev between : ℕ → ℕ → ℕ → Bool
between lo hi n = leb lo n && leb n hi

-- The message types that have a handler, as ranges of numbers.
abbrev ieee1905_handled : ℕ → Bool
ieee1905_handled t = between 0x0000 0x000a t || (between 0x000d 0x000e t || between 0x0011 0x0012 t)

abbrev easymesh_handled : ℕ → Bool
easymesh_handled t =
    (between 0x8001 0x8002 t || (between 0x8004 0x800a t || between 0x800d 0x8010 t))
    || (between 0x8014 0x8017 t || (between 0x8019 0x801c t || between 0x8044 0x8047 t))

abbrev pub handled : ℕ → Bool
handled t = ieee1905_handled t || easymesh_handled t

is_some-ieee1905_handled : (t : ℕ) → is_some (processing_text t) ≡ ieee1905_handled t
is_some-ieee1905_handled t = is_some-processing_text t ∙ ground arith

capability_cases :
    (t : ℕ) (rest : Bool)
    → (t == 0x8001
        || (t == 0x8002
            || (t == 0x8004
                || (t == 0x8005
                    || (t == 0x8006
                        || (t == 0x8007
                            || (t == 0x8008
                                || (t == 0x8009
                                    || (t == 0x800a
                                        || (t == 0x800d
                                            || (t == 0x800e
                                                || (t == 0x800f
                                                    || (t == 0x8010 || (rest))))))))))))))
      ≡ ((between 0x8001 0x8002 t || (between 0x8004 0x800a t || between 0x800d 0x8010 t)) || rest)
capability_cases t rest = ground arith

steering_cases :
    (t : ℕ)
    → (t == 0x8014
        || (t == 0x8015
            || (t == 0x8016
                || (t == 0x8017
                    || (t == 0x8019
                        || (t == 0x801a
                            || (t == 0x801b
                                || (t == 0x801c
                                    || (t == 0x8044
                                        || (t == 0x8045
                                            || (t == 0x8046 || (t == 0x8047 || (false)))))))))))))
      ≡ (between 0x8014 0x8017 t || (between 0x8019 0x801c t || between 0x8044 0x8047 t))
steering_cases t = ground arith

is_easymesh-easymesh_handled : (t : ℕ) → is_easymesh t ≡ easymesh_handled t
is_easymesh-easymesh_handled t = capability_cases t _ ∙ rw (steering_cases t)

-- The line that `HandleCmdu` logs first, and the one for a type without a handler.
abbrev pub received_line : Cmdu → Event
received_line c =
    log debug "Ieee1905Agent: Received CMDU {} (0x{:04x}), MID=0x{:04x}"
      (text (cmdu_type_to_string c.type) ∷ number c.type ∷ number c.id ∷ [])

abbrev pub unhandled_line : Cmdu → Event
unhandled_line c =
    log warn "Ieee1905Agent: Unhandled CMDU {} (0x{:04x}), MID=0x{:04x}"
      (text (cmdu_type_to_string c.type) ∷ number c.type ∷ number c.id ∷ [])

-- What the handler logs: the line for the type, if it has one, or the warning.
abbrev pub handler_lines : Cmdu → List Event
handler_lines c =
    if handled c.type then text_or (processing_text c.type) [] else unhandled_line c ∷ []

handler_lines_cases :
    (t : Option String) (old listed mesh : Bool) (u : List Event)
    → is_some t ≡ old
    → listed ≡ mesh
    → text_or t (if listed then [] else u) ≡ (if old || mesh then text_or t [] else u)
handler_lines_cases none old listed true u h e = ground arith
handler_lines_cases none old listed false u h e = ground arith
handler_lines_cases (some s) old listed mesh u h e = ground arith

-- `HandleCmdu` returns for every message and leaves the agent alone. It logs that the message was
-- received. Then, for the types in the ranges of `handled`, it logs the line of the message's
-- IEEE 1905.1 type and nothing for an EasyMesh type, and for every other type the warning.
pub handle_cmdu-Logs : (c : Cmdu) → Logs (handle_cmdu c) (received_line c ∷ handler_lines c)
unfolding handle_cmdu
handle_cmdu-Logs c =
    rw
      (← handler_lines_cases (processing_text c.type) (ieee1905_handled c.type) (is_easymesh c.type)
        (easymesh_handled c.type) (unhandled_line c ∷ []) (is_some-ieee1905_handled c.type)
        (is_easymesh-easymesh_handled c.type))
      (Logs-append (em_debug-Logs _ _)
        (switch-Logs c unhandled (unhandled_line c ∷ []) (unfold unhandled in em_warn-Logs _ _)))
