-- ===== src/Agent/Naming.antt =====
-- The names that `CmduTypeToString` gives: which types have one, and that they differ.
use text.Mathlib.Text.{◌==◌ as str_eq}
use text.Mathlib.TextEquality.{eq_iff}
use ieee.Prelude.{
  ℕ, zero, suc, ◌+◌, ◌≡◌, ◌≢◌, ◌↔◌, refl, sym, ap, ◌∙◌, arith, leb, ltb, ◌==◌, ==_iff, ◌&&◌, ◌||◌,
  not, Bool, true, false, Bool-cases, inl, inr, String, List, [], ◌∷◌, ◌++◌,
}
use ieee.Agent.Switch.{switch}
use ieee.Agent.Names.{type_names, cmdu_type_to_string}
use ieee.Agent.Declared.{declared_names}
use ieee.Agent.Handling.{handled}

-- No entry has the name `s`.
fresh : String → List (ℕ × String) → Bool
fresh s [] = true
fresh s ((k, a) ∷ m) = not (str_eq a s) && fresh s m

-- The names differ from one another and from the default.
distinct : String → List (ℕ × String) → Bool
unfolding fresh
distinct d [] = true
distinct d ((k, a) ∷ m) = not (str_eq a d) && (fresh a m && distinct d m)

type_names-distinct : distinct "UNKNOWN_CMDU_TYPE" type_names ≡ true
unfolding distinct
type_names-distinct = refl

str_eq_false : (s t : String) → not (str_eq s t) ≡ true → s ≢ t
str_eq_false s t h e = cc (rw ((eq_iff s t).1 e) at h)

and_left : (a b : Bool) → (a && b) ≡ true → a ≡ true
and_left a b h = ground arith

and_right : (a b : Bool) → (a && b) ≡ true → b ≡ true
and_right a b h = ground arith

switch-fresh :
    (t : ℕ) (s d : String) (m : List (ℕ × String)) → fresh s m ≡ true → d ≢ s → switch t m d ≢ s
unfolding switch fresh
switch-fresh t s d [] h n = n
switch-fresh t s d ((k, a) ∷ m) h n = elim (Bool-cases (t == k)) [
  | inl e ↦ rw e (str_eq_false a s (and_left _ _ h))
  | inr e ↦ rw e (switch-fresh t s d m (and_right _ _ h) n)
]

elem : ℕ → List ℕ → Bool
elem n [] = false
elem n (k ∷ ks) = n == k || elem n ks

types : List (ℕ × String) → List ℕ
types [] = []
types ((k, a) ∷ m) = k ∷ types m

-- A listed type does not get the default, and any other does.
switch-elem :
    (t : ℕ) (d : String) (m : List (ℕ × String))
    → distinct d m ≡ true
    → (switch t m d ≢ d) ↔ (elem t (types m) ≡ true)
unfolding switch distinct elem types
switch-elem t d [] h = (λ n. absurd (n refl), λ e. cc)
switch-elem t d ((k, a) ∷ m) h = elim (Bool-cases (t == k)) [
  | inl e ↦ rw e (λ n. refl, λ p. str_eq_false a d (and_left _ _ h))
  | inr e ↦ rw e (switch-elem t d m (and_right _ _ (and_right _ _ h)))
]

-- The first entry's name does not come up again.
switch_tail_fresh :
    (v k : ℕ) (a d : String) (m : List (ℕ × String))
    → distinct d ((k, a) ∷ m) ≡ true
    → switch v m d ≢ a
unfolding distinct
switch_tail_fresh v k a d m h =
    switch-fresh v a d m (and_left _ _ (and_right _ _ h))
      λ x. str_eq_false a d (and_left _ _ h) (sym x)

-- Two types with one name that is not the default are equal.
switch-injective :
    (t u : ℕ) (d : String) (m : List (ℕ × String))
    → distinct d m ≡ true
    → switch t m d ≢ d
    → switch t m d ≡ switch u m d
    → t ≡ u
unfolding switch distinct
switch-injective t u d [] h n e = absurd (n refl)
switch-injective t u d ((k, a) ∷ m) h n e = elim (Bool-cases (t == k)) [
  | inl et ↦ elim (Bool-cases (u == k)) [
    | inl eu ↦ (==_iff t k).0 et ∙ sym ((==_iff u k).0 eu)
    | inr eu ↦ absurd (switch_tail_fresh u k a d m h (sym (rw (et, eu) at e)))
  ]
  | inr et ↦ elim (Bool-cases (u == k)) [
    | inl eu ↦ absurd (switch_tail_fresh t k a d m h (rw (et, eu) at e))
    | inr eu ↦
        switch-injective t u d m (and_right _ _ (and_right _ _ h)) (rw et at n) (rw (et, eu) at e)
  ]
]

-- A run of numbers.
from : ℕ → ℕ → List ℕ
from lo zero = []
from lo (suc n) = lo ∷ from (suc lo) n

elem-from : (t lo n : ℕ) → elem t (from lo n) ≡ (leb lo t && ltb t (lo + n))
unfolding elem from
elem-from t lo zero = ground arith
elem-from t lo (suc n) = ground (arith, elem-from t (suc lo) n)

elem-append : (t : ℕ) (xs ys : List ℕ) → elem t (xs ++ ys) ≡ (elem t xs || elem t ys)
unfolding elem
elem-append t [] ys = refl
elem-append t (x ∷ xs) ys = ground (arith, elem-append t xs ys)

-- The types that have a name, as ranges of numbers.
abbrev pub named : ℕ → Bool
named t =
    (leb 0x0000 t && ltb t (0x0000 + 19))
    || ((leb 0x8000 t && ltb t (0x8000 + 54))
        || ((leb 0x8037 t && ltb t (0x8037 + 1))
            || ((leb 0x8043 t && ltb t (0x8043 + 6)) || (leb 0x9000 t && ltb t (0x9000 + 1)))))

runs : List ℕ
unfolding from
runs = from 0x0000 19 ++ (from 0x8000 54 ++ (from 0x8037 1 ++ (from 0x8043 6 ++ from 0x9000 1)))

types-runs : types type_names ≡ runs
unfolding types runs
types-runs = refl

elem-named : (t : ℕ) → elem t (types type_names) ≡ named t
unfolding runs
elem-named t = rw types-runs (simp (elem-append, elem-from))

type_names-declared_names : type_names ≡ declared_names
type_names-declared_names = refl

-- `CmduTypeToString` has a name for exactly the types in the ranges of `named`, and any other gets
-- UNKNOWN_CMDU_TYPE. All types that have a handler are named, and no two named types share a
-- name. The name is that of the constant that cmdu.h declares with the number.
pub cmdu_type_to_string-named :
    (t : ℕ)
    → ((cmdu_type_to_string t ≢ "UNKNOWN_CMDU_TYPE") ↔ (named t ≡ true))
      × (handled t ≡ true → named t ≡ true)
      × ((u : ℕ) → named t ≡ true → cmdu_type_to_string t ≡ cmdu_type_to_string u → t ≡ u)
      × (cmdu_type_to_string t ≡ switch t declared_names "UNKNOWN_CMDU_TYPE")
unfolding cmdu_type_to_string
cmdu_type_to_string-named t = (
  known,
  λ h. ground arith,
  λ u h e. switch-injective t u "UNKNOWN_CMDU_TYPE" type_names type_names-distinct (known.1 h) e,
  ap (λ (m : List (ℕ × String)). switch t m "UNKNOWN_CMDU_TYPE") type_names-declared_names,
)
  where
    known : (switch t type_names "UNKNOWN_CMDU_TYPE" ≢ "UNKNOWN_CMDU_TYPE") ↔ (named t ≡ true)
    known = rw elem-named at (switch-elem t "UNKNOWN_CMDU_TYPE" type_names type_names-distinct)
