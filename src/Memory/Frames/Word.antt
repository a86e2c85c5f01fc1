-- ===== src/Memory/Frames/Word.antt =====
-- src/memory.c: one word of the bitmap under `|= 1 << k` and `&= ~(1 << k)`.
use cindy_os.Base.{ℕ, ◌%◌, ◌^◌, ◌<◌, ◌≡◌, ◌≢◌, arith, bit_and, bit_or, not32}
use cindy_os.Base.Bits.{bit, bit-or, bit-and, bit-not, bit-pow_self, bit-pow_ne, bit-le-one}
use native.Mathlib.Nat.{pow-le-pow_right}

pub one_bit-lt : (f : ℕ) → 2 ^ (f % 32) < 4294967296
one_bit-lt f =
    omega (arith, pow-le-pow_right {n = 2} (omega arith) {i = f % 32} {j = 31} (omega arith))

-- `w |= 1 << k` sets bit `k` and keeps the others.
pub bit-set_self : (w k : ℕ) → bit (bit_or w (2 ^ k)) k ≡ 1
bit-set_self w k = omega (arith, bit-or k w (2 ^ k), bit-pow_self k, bit-le-one w k)

pub bit-set_ne : (w k i : ℕ) → i ≢ k → bit (bit_or w (2 ^ k)) i ≡ bit w i
bit-set_ne w k i ne = omega (arith, bit-or i w (2 ^ k), bit-pow_ne k i ne)

-- `w &= ~(1 << k)` clears bit `k` and keeps the others.
pub bit-clear_self : (w k : ℕ) → k < 32 → 2 ^ k < 4294967296 → bit (bit_and w (not32 (2 ^ k))) k ≡ 0
bit-clear_self w k h lt =
    omega (arith, bit-and k w (not32 (2 ^ k)), bit-not 32 k (2 ^ k) lt h, bit-pow_self k)

pub bit-clear_ne :
    (w k i : ℕ) → i < 32 → 2 ^ k < 4294967296 → i ≢ k → bit (bit_and w (not32 (2 ^ k))) i ≡ bit w i
bit-clear_ne w k i h lt ne = omega (
  arith,
  bit-and i w (not32 (2 ^ k)),
  bit-not 32 i (2 ^ k) lt h,
  bit-pow_ne k i ne,
  bit-le-one w i,
)
