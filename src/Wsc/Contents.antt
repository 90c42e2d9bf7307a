-- ===== src/Wsc/Contents.antt =====
-- What a WSC message holds, as a map that forgets how it was built: sequences of assignments, up to
-- the last value of each attribute type.
use mathlib.Core.Quot
use mathlib.Core.Quot.{Quot, Quot-set}
use native.Mathlib.Nat.{ℕ_set}
use ieee.Prelude.{
  ℕ, ◌≤◌, ◌≡◌, refl, sym, ap, ◌∙◌, arith, ◌==◌, if◌then◌else◌, List, [], ◌∷◌, ◌++◌, Option, none,
  some,
}
use ieee.Wsc.{WscMessage}
use ieee.Wsc.Entries.{
  Map, Above, IsSorted, find, insert_or_assign, insert_or_assign-IsSorted, find-insert_or_assign,
}
use ieee.Wsc.Canonical.{assigned, find-ext}

-- The same last values.
abbrev SameLast : List (ℕ × List ℕ) → List (ℕ × List ℕ) → Type 0
SameLast xs ys = (j : ℕ) → assigned j xs none ≡ assigned j ys none

abbrev pub Contents : Type 0
Contents = Quot SameLast

abbrev pub empty : Contents
empty = Quot.mk []

pub assigned-append :
    (j : ℕ) (xs ys : List (ℕ × List ℕ)) (old : Option (List ℕ))
    → assigned j (xs ++ ys) old ≡ assigned j ys (assigned j xs old)
assigned-append j [] ys old = refl
assigned-append j ((k, v) ∷ xs) ys old = assigned-append j xs ys _

SameLast-append :
    (k : ℕ) (v : List ℕ) (xs ys : List (ℕ × List ℕ))
    → SameLast xs ys
    → SameLast (xs ++ ((k, v) ∷ [])) (ys ++ ((k, v) ∷ []))
SameLast-append k v xs ys h j =
    assigned-append j xs ((k, v) ∷ []) none
    ∙ ap (assigned j ((k, v) ∷ [])) (h j)
    ∙ sym (assigned-append j ys ((k, v) ∷ []) none)

pub assign : ℕ → List ℕ → Contents → Contents
assign k v =
    Quot.lift Quot-set (λ xs. Quot.mk (xs ++ ((k, v) ∷ [])))
      λ xs ys h. Quot.sound (SameLast-append k v xs ys h)

pub value_of : ℕ → Contents → Option (List ℕ)
value_of j = Quot.lift (hlevel ℕ_set) (λ xs. assigned j xs none) λ xs ys h. h j

-- What a message holds.
abbrev pub contents : WscMessage → Contents
contents m = Quot.mk m.attributes

pub value_of-assign :
    (k j : ℕ) (v : List ℕ) (c : Contents)
    → value_of j (assign k v c) ≡ (if k == j then some v else value_of j c)
unfolding assign value_of
value_of-assign k j v = Quot.ind (λ c. hlevel ℕ_set) λ xs. assigned-append j xs ((k, v) ∷ []) none

-- Contents are determined by their values.
pub value_of-ext : (c d : Contents) → ((j : ℕ) → value_of j c ≡ value_of j d) → c ≡ d
unfolding value_of
value_of-ext =
    Quot.ind (λ _. hlevel Quot-set) λ xs. Quot.ind (λ _. hlevel Quot-set) λ ys. Quot.sound

or_else : Option (List ℕ) → Option (List ℕ) → Option (List ℕ)
or_else none old = old
or_else (some v) old = some v

assigned-Above :
    (j k : ℕ) (m : Map (List ℕ)) (old : Option (List ℕ))
    → Above k m
    → j ≤ k
    → assigned j m old ≡ old
assigned-Above j k [] old a h = refl
assigned-Above j k ((i, v) ∷ m) old a h = ground (arith, assigned-Above j k m old a.1 h)

assigned_sorted :
    (j : ℕ) (m : Map (List ℕ)) (old : Option (List ℕ))
    → IsSorted m
    → assigned j m old ≡ or_else (find j m) old
unfolding or_else find
assigned_sorted j [] old s = refl
assigned_sorted j ((k, v) ∷ m) old s =
    ground (arith, assigned-Above j k m (some v) s.0, assigned_sorted j m old s.1)

or_else-none : (o : Option (List ℕ)) → or_else o none ≡ o
unfolding or_else
or_else-none none = refl
or_else-none (some v) = refl

pub assigned-find : (j : ℕ) (m : Map (List ℕ)) → IsSorted m → assigned j m none ≡ find j m
assigned-find j m s = assigned_sorted j m none s ∙ or_else-none (find j m)

-- Sorted messages with the same contents are equal.
pub contents-injective :
    (m n : WscMessage)
    → IsSorted m.attributes
    → IsSorted n.attributes
    → contents m ≡ contents n
    → m ≡ n
unfolding value_of
contents-injective m n s t e =
    ap (λ (l : Map (List ℕ)). record { attributes = l })
      (find-ext m.attributes n.attributes s t λ j.
        sym (assigned-find j m.attributes s) ∙ ap (value_of j) e ∙ assigned-find j n.attributes t)

pub value_of-contents :
    (j : ℕ) (m : WscMessage) → IsSorted m.attributes → value_of j (contents m) ≡ find j m.attributes
unfolding value_of
value_of-contents j m s = assigned-find j m.attributes s

-- The map's assignment is the assignment.
pub contents-insert_or_assign :
    (k : ℕ) (v : List ℕ) (m : WscMessage)
    → IsSorted m.attributes
    → contents (record { attributes = insert_or_assign k v m.attributes }) ≡ assign k v (contents m)
contents-insert_or_assign k v m s = value_of-ext _ _ λ j.
    value_of-contents j (record { attributes = insert_or_assign k v m.attributes })
      (insert_or_assign-IsSorted k v m.attributes s)
    ∙ find-insert_or_assign k j v m.attributes
    ∙ ap (λ (o : Option (List ℕ)). if k == j then some v else o) (sym (value_of-contents j m s))
    ∙ sym (value_of-assign k j v (contents m))
