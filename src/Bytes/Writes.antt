-- ===== src/Bytes/Writes.antt =====
-- What a routine stores through its pointer, and that it stays inside the vector.
use ieee.Prelude.{
  ℕ, ◌≤◌, ◌≡◌, refl, sym, ap, ap₂, ◌∙◌, arith, lt→ltb, length, drop, List, [], ◌∷◌, ◌++◌,
  append-nil, append_assoc, length-append, set-append, drop-drop, length-drop, drop-all,
}
use ieee.Result.{Result, ok, ◌>>=◌}
use ieee.Bytes.{Writer, put, copy}

-- A writer that has stored `done` and has `rest` before it.
abbrev pub at : List ℕ → List ℕ → Writer
at done rest = record { buffer = done ++ rest; pos = length done }

-- The routine stores exactly `bytes`, wherever there is room for them.
pub record Writes (f : Writer → Result Writer) (bytes : List ℕ) : Type 0 where
  pub stores :
      (done rest : List ℕ)
      → length bytes ≤ length rest
      → f (at done rest) ≡ ok (at (done ++ bytes) (drop (length bytes) rest))

Writer-ext :
    (xs ys : List ℕ) (m n : ℕ)
    → xs ≡ ys
    → m ≡ n
    → ◌≡◌ {A = Writer} (record { buffer = xs; pos = m }) (record { buffer = ys; pos = n })
Writer-ext xs ys m n p q = λ i. record { buffer = p i; pos = q i }

put_stores :
    (v : ℕ) (done rest : List ℕ)
    → 1 ≤ length rest
    → put v (at done rest) ≡ ok (at (done ++ (v ∷ [])) (drop 1 rest))
unfolding put
put_stores v done [] h = absurd (omega arith)
put_stores v done (x ∷ rest) h =
    rw
      (lt→ltb (length done) (length (done ++ (x ∷ rest)))
        (omega (arith, length-append done (x ∷ rest))))
      (ap ok (
        Writer-ext _ _ _ _ (set-append done x rest v ∙ sym (append_assoc done (v ∷ []) rest))
          (omega (arith, length-append done (v ∷ [])))))

pub put-Writes : (v : ℕ) → Writes (put v) (v ∷ [])
put-Writes v = record { stores = put_stores v }

pub Writes-nil : Writes ok []
Writes-nil = record {
  stores = λ done rest h. ap (λ (d : List ℕ). ok (at d rest)) (sym (append-nil done));
}

-- One routine after another.
pub Writes-append :
    {f g : Writer → Result Writer} {xs ys : List ℕ}
    → Writes f xs
    → Writes g ys
    → Writes (λ w. f w >>= g) (xs ++ ys)
Writes-append {xs} {ys} hf hg = record {
  stores = λ done rest h. rw (hf.stores done rest (omega (arith, length-append xs ys))) (
      hg.stores (done ++ xs) (drop (length xs) rest)
        (omega (arith, length-append xs ys, length-drop (length xs) rest))
      ∙ ap ok (
          ap₂ at (append_assoc done xs ys) (
            drop-drop (length ys) (length xs) rest
            ∙ ap (λ (k : ℕ). drop k rest) (sym (length-append xs ys)))));
}

pub copy-Writes : (bytes : List ℕ) → Writes (copy bytes) bytes
unfolding copy
copy-Writes [] = Writes-nil
copy-Writes (b ∷ bs) = Writes-append (put-Writes b) (copy-Writes bs)

-- A routine that fills a new vector of the right size returns exactly its bytes.
pub Writes-fills :
    (f : Writer → Result Writer) (bytes junk : List ℕ)
    → Writes f bytes
    → length junk ≡ length bytes
    → f (at [] junk) ≡ ok (record { buffer = bytes; pos = length bytes })
Writes-fills f bytes junk hf e =
    hf.stores [] junk (omega arith)
    ∙ ap ok (
        Writer-ext _ _ _ _
          (ap (λ (d : List ℕ). bytes ++ d) (drop-all junk (length bytes) (omega arith))
            ∙ append-nil bytes)
          refl)
