-- ===== src/Prelude/Bits.antt =====
-- The bit operations of the big-endian routines as arithmetic, by a table over the 16-bit values.
use Prim.Native.Nat.{ℕ, zero, suc, ◌+◌, ◌*◌, ◌/◌, ◌%◌, ◌<◌, bit_and, bit_or}
use mathlib.Core.Path.{◌≡◌, refl}
use mathlib.Core.Bool.{Bool, true, ◌&&◌}
use native.Mathlib.Omega.{arith}
use ieee.Prelude.Tests.{◌==◌, ==_iff}

every_below : ℕ → (ℕ → Bool) → Bool
every_below zero p = true
every_below (suc n) p = p n && every_below n p

every_below→at : (n : ℕ) (p : ℕ → Bool) (x : ℕ) → every_below n p ≡ true → x < n → p x ≡ true
unfolding every_below
every_below→at zero p x h lt = absurd (omega arith)
every_below→at (suc n) p x h lt = ground (arith, every_below→at n p x)

mask_at : ℕ → Bool
mask_at x = bit_and x 0xff == x % 256

masks : every_below 65536 mask_at ≡ true
unfolding every_below mask_at
masks = refl

-- A byte shifted up by eight, or a second byte: the pair is coded as one number.
joins_at : ℕ → Bool
joins_at x = bit_or (x / 256 * 256) (x % 256) == x

joins : every_below 65536 joins_at ≡ true
unfolding every_below joins_at
joins = refl

-- `value & 0xFF` on a uint16_t.
pub bit_and-byte : (x : ℕ) → x < 65536 → bit_and x 0xff ≡ x % 256
unfolding mask_at
bit_and-byte x h = (==_iff _ _).0 (every_below→at 65536 mask_at x masks h)

joined : (x : ℕ) → x < 65536 → bit_or (x / 256 * 256) (x % 256) ≡ x
unfolding joins_at
joined x h = (==_iff _ _).0 (every_below→at 65536 joins_at x joins h)

-- `(hi << 8) | lo` on two bytes.
pub bit_or-bytes : (hi lo : ℕ) → hi < 256 → lo < 256 → bit_or (hi * 256) lo ≡ hi * 256 + lo
bit_or-bytes hi lo h l = let whole = joined (hi * 256 + lo) (omega arith) in rw (high, low) at whole
  where
    high : (hi * 256 + lo) / 256 ≡ hi
    high = omega arith

    low : (hi * 256 + lo) % 256 ≡ lo
    low = omega arith
