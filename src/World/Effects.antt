-- ===== src/World/Effects.antt =====
-- What a call does to the world: calls that only log, composed in sequence.
use ieee.Prelude.{
  ◌≡◌, refl, sym, ap, ◌∙◌, true, if◌then◌else◌, String, List, [], ◌∷◌, ◌++◌, append_assoc,
  append-nil,
}
use ieee.Result.{ok}
use ieee.World.{
  World, Agent, M, pure, scope, try, ◌>>◌, ◌>>=◌, Event, stdout_color_mt, set_level, flush_on,
  debug, error,
}

-- What the first use of the logger adds.
abbrev pub init_events : List Event
init_events = stdout_color_mt "ieee1905_1" ∷ set_level debug ∷ flush_on error ∷ []

-- The world after log lines `es`, if there are any.
abbrev pub logged : List Event → World → World
logged [] w = w
logged (e ∷ es) w = record w {
  has_logger = true;
  events = w.events ++ ((if w.has_logger then [] else init_events) ++ (e ∷ es));
}

-- The call returns, leaves the agent alone and logs exactly `es`.
pub record Logs (m : M (Unit {0})) (es : List Event) : Type 0 where
  pub runs : (w : World) → m w ≡ (ok tt, logged es w)

pub logged-append : (xs ys : List Event) (w : World) → logged ys (logged xs w) ≡ logged (xs ++ ys) w
logged-append [] ys w = refl
logged-append (x ∷ xs) [] w = ap (λ (es : List Event). logged (x ∷ es) w) (sym (append-nil xs))
logged-append (x ∷ xs) (y ∷ ys) w =
    ap (λ (es : List Event). record w { has_logger = true; events = es })
      (append_assoc w.events first ((y ∷ ys))
        ∙ ap (λ (es : List Event). w.events ++ es)
            (append_assoc (if w.has_logger then [] else init_events) (x ∷ xs) (y ∷ ys)))
  where
    first : List Event
    first = (if w.has_logger then [] else init_events) ++ (x ∷ xs)

pub Logs-pure : Logs (pure tt) []
Logs-pure = record { runs = λ w. refl }

pub Logs-append :
    {m k : M (Unit {0})} {xs ys : List Event} → Logs m xs → Logs k ys → Logs (m >> k) (xs ++ ys)
Logs-append {xs} {ys} a b = record {
  runs = λ w.
      rw (a.runs w) (b.runs (logged xs w) ∙ ap (λ (v : World). (ok tt, v)) (logged-append xs ys w));
}

-- In a given world the call returns a value, logs exactly `es` and leaves the agent as `after`.
pub record Does {A : Type 0} (m : M A) (w : World) (a : A) (es : List Event) (after : Agent)
    : Type 0 where
  pub runs : m w ≡ (ok a, record (logged es w) { agent = after })

logged-agent :
    (es : List Event) (w : World) → logged es w ≡ record (logged es w) { agent = w.agent }
logged-agent [] w = refl
logged-agent (e ∷ es) w = refl

pub Does-Logs :
    {m : M (Unit {0})} {es : List Event} (w : World) → Logs m es → Does m w tt es w.agent
Does-Logs {es} w l = record { runs = l.runs w ∙ ap (λ (v : World). (ok tt, v)) (logged-agent es w) }

logged-with_agent :
    (fs : List Event) (v : World) (g h : Agent)
    → ◌≡◌ {A = World}
        (record (logged fs (record v { agent = g })) { agent = h })
        (record (logged fs v) { agent = h })
logged-with_agent [] v g h = refl
logged-with_agent (f ∷ fs) v g h = refl

-- What two calls in sequence leave behind.
in_sequence :
    (es fs : List Event) (w : World) (g h : Agent)
    → ◌≡◌ {A = World}
        (record (logged fs (record (logged es w) { agent = g })) { agent = h })
        (record (logged (es ++ fs) w) { agent = h })
in_sequence es fs w g h =
    logged-with_agent fs (logged es w) g h
    ∙ ap (λ (v : World). record v { agent = h }) (logged-append es fs w)

-- Calls in sequence.
pub Does-bind :
    {A B : Type 0} {m : M A} {w : World} {a : A} {b : B} {es fs : List Event} {g h : Agent}
    (k : A → M B)
    → Does m w a es g
    → Does (k a) (record (logged es w) { agent = g }) b fs h
    → Does (m >>= k) w b (es ++ fs) h
Does-bind {w} {b} {es} {fs} {g} {h} k x y = record {
  runs = rw x.runs (y.runs ∙ ap (λ (v : World). (ok b, v)) (in_sequence es fs w g h));
}

-- A scope, and the destructor at its end.
pub Does-scope :
    {A : Type 0} {m : M A} {d : M (Unit {0})} {w : World} {a : A} {es fs : List Event} {g h : Agent}
    → Does m w a es g
    → Does d (record (logged es w) { agent = g }) tt fs h
    → Does (scope m d) w a (es ++ fs) h
Does-scope {w} {a} {es} {fs} {g} {h} x y = record {
  runs = rw (x.runs, y.runs) (ap (λ (v : World). (ok a, v)) (in_sequence es fs w g h));
}

-- A `try` block that nothing leaves.
pub Does-try :
    {A : Type 0} {m : M A} {w : World} {a : A} {es : List Event} {g : Agent}
    (handler : String → M A)
    → Does m w a es g
    → Does (try m handler) w a es g
Does-try handler x = record { runs = rw x.runs refl }
