-- ===== src/Bytes.antt =====
-- The byte pointers of src/serializer.cpp, src/parser.cpp and src/wsc.cpp: `*ptr++ = v` into a
-- vector of fixed size, `std::copy` to such a pointer, and `*ptr++` out of a constant vector.
pub mod Reads
pub mod Writes
use ieee.Prelude.{ℕ, suc, ◌+◌, ltb, if◌then◌else◌, length, set, List, [], ◌∷◌}
use ieee.Result.{Result, ok, err, out_of_bounds, ◌>>=◌}

-- A vector and a pointer into it, as an index.
pub record Writer : Type 0 where
  pub buffer : List ℕ
  pub pos : ℕ

-- `*ptr++ = value`. A store past the end of the vector is a fault.
unfoldable pub put : ℕ → Writer → Result Writer
put value w =
    if ltb w.pos (length w.buffer)
    then ok (record { buffer = set w.buffer w.pos value; pos = w.pos + 1 })
    else err out_of_bounds

-- `std::copy(v.begin(), v.end(), ptr); ptr += v.size()`.
unfoldable pub copy : List ℕ → Writer → Result Writer
copy [] w = ok w
copy (b ∷ bs) w = do w' ← put b w; copy bs w'

-- `*ptr++` for reading. The list is what lies between the pointer and the end of the vector.
unfoldable pub fetch : List ℕ → Result (ℕ × List ℕ)
fetch [] = err out_of_bounds
fetch (b ∷ bs) = ok (b, bs)
