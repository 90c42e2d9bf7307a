-- ===== src/Agent/Switch.antt =====
-- A C++ `switch` over a number, as its list of cases and its default.
use ieee.Prelude.{ℕ, ◌==◌, if◌then◌else◌, List, [], ◌∷◌}

unfoldable pub switch {ℓ} : {A : Type ℓ} → ℕ → List (ℕ × A) → A → A
switch n [] default = default
switch n ((k, a) ∷ cases) default = if n == k then a else switch n cases default
