-- ===== src/Wsc/Canonical.antt =====
-- The message more the finite map that a sequence of `AddAttribute` calls assigns.
use ieee.Prelude.{
  ℕ, ◌≤◌, ◌≡◌, ◌↔◌, refl, sym, ap, ap₂, ◌∙◌, arith, ◌==◌, if◌then◌else◌, length, All, List, [], ◌∷◌,
  Option, none, some, le→ltb,
}
use ieee.Result.{Result, ok, ◌>>=◌}
use ieee.Wsc.{WscMessage, make, add_attribute}
use ieee.Wsc.Entries.{
  Map, Above, IsSorted, insert_or_assign, find, find-insert_or_assign, insert_or_assign-IsSorted,
}

module _ {V : Type 0} where
  find-Above : (j k : ℕ) (m : Map V) → Above k m → j ≤ k → find j m ≡ none
  unfolding find
  find-Above j k [] a h = refl
  find-Above j k ((i, v) ∷ m) a h = ground (arith, find-Above j k m a.1 h)

  find_head : (k : ℕ) (v : V) (m : Map V) → find k ((k, v) ∷ m) ≡ some v
  unfolding find
  find_head k v m = ground arith

  find_nil : (k : ℕ) → find {V = V} k [] ≡ none
  unfolding find
  find_nil k = refl

  find_tail :
      (i k : ℕ) (v w : V) (m n : Map V)
      → Above k m
      → Above k n
      → find i ((k, v) ∷ m) ≡ find i ((k, w) ∷ n)
      → find i m ≡ find i n
  unfolding find
  find_tail i k v w m n a b h = ground (arith, find-Above i k m a, find-Above i k n b)

  same_head :
      (k j : ℕ) (v w : V) (m n : Map V)
      → Above k m
      → Above j n
      → ((i : ℕ) → find i ((k, v) ∷ m) ≡ find i ((j, w) ∷ n))
      → (k ≡ j) × (v ≡ w)
  unfolding find
  same_head k j v w m n a b h = ground (arith, h k, h j, find-Above j k m a, find-Above k j n b)

  -- A sorted list of entries is determined by what `find` gives.
  pub find-ext : (m n : Map V) → IsSorted m → IsSorted n → ((i : ℕ) → find i m ≡ find i n) → m ≡ n
  find-ext [] [] s t h = refl
  find-ext [] ((j, w) ∷ n) s t h = cc (h j, find_nil j, find_head j w n)
  find-ext ((k, v) ∷ m) [] s t h = cc (h k, find_nil k, find_head k v m)
  find-ext ((k, v) ∷ m) ((j, w) ∷ n) s t h =
      let (e, f) = same_head k j v w m n s.0 t.0 h in
      let below : Above k n = rw e t.0 in
      let rest : m ≡ n =
        find-ext m n s.1 t.1 (λ i. find_tail i k v w m n s.0 below (h i ∙ rw e refl)) in
      ap₂ (λ (x : ℕ × V) (l : Map V). x ∷ l) (ap₂ (λ (a : ℕ) (b : V). (a, b)) e f) rest

-- One `AddAttribute` call for each pair, in order.
abbrev pub add_attributes : List (ℕ × List ℕ) → WscMessage → Result WscMessage
add_attributes [] m = ok m
add_attributes ((k, v) ∷ more) m = add_attribute k v m >>= add_attributes more

-- The last value that such calls assign to a type, and otherwise the given one.
abbrev pub assigned : ℕ → List (ℕ × List ℕ) → Option (List ℕ) → Option (List ℕ)
assigned j [] old = old
assigned j ((k, v) ∷ more) old = assigned j more (if k == j then some v else old)

abbrev pub Fits : ℕ × List ℕ → Type 0
Fits a = length a.1 ≤ 0xFFFF

-- The calls return the sorted map of what was assigned last.
pub add_attributes_assigned :
    (more : List (ℕ × List ℕ)) (m : WscMessage)
    → All Fits more
    → IsSorted m.attributes
    → (m' : WscMessage) × (add_attributes more m ≡ ok m')
      × IsSorted m'.attributes
      × ((j : ℕ) → find j m'.attributes ≡ assigned j more (find j m.attributes))
unfolding add_attribute
add_attributes_assigned [] m f s = (m, refl, s, λ j. refl)
add_attributes_assigned ((k, v) ∷ more) m f s =
    let next : WscMessage = record { attributes = insert_or_assign k v m.attributes } in
    let (m', e, s', h) =
      add_attributes_assigned more next f.1 (insert_or_assign-IsSorted k v m.attributes s) in
    (
      m',
      rw (le→ltb 0xFFFF (length v) f.0) e,
      s',
      λ j. h j ∙ ap (assigned j more) (find-insert_or_assign k j v m.attributes),
    )

same_message : {m n : WscMessage} → ok m ≡ ok n → m ≡ n
same_message e = cc

-- Two sequences of `AddAttribute` calls, with values of at most 65535 bytes, build the same message
-- exactly when they assign the same last value to each type: neither the order of the calls nor a
-- value that was overwritten shows in it, and all else does.
pub add_attributes-eq_iff :
    (calls others : List (ℕ × List ℕ))
    → All Fits calls
    → All Fits others
    → (add_attributes calls make ≡ add_attributes others make)
      ↔ ((j : ℕ) → assigned j calls none ≡ assigned j others none)
unfolding make find
add_attributes-eq_iff calls others f g =
    let (m, e, s, h) = add_attributes_assigned calls make f tt in
    let (n, d, t, k) = add_attributes_assigned others make g tt in
    (
      λ same.
          let equal : m ≡ n = same_message (sym e ∙ same ∙ d) in
          λ j. sym (h j) ∙ ap (λ (x : WscMessage). find j x.attributes) equal ∙ k j,
      λ same.
          let equal : m.attributes ≡ n.attributes =
            find-ext m.attributes n.attributes s t (λ j. h j ∙ same j ∙ sym (k j)) in
          e ∙ ap (λ (l : Map (List ℕ)). ok (record { attributes = l })) equal ∙ sym d,
    )
