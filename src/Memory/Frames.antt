-- ===== src/Memory/Frames.antt =====
-- src/memory.c: what the bitmap says of each frame, and what setting and clearing a bit change.
mod Word
pub mod Range
use Word.{bit-set_self, bit-set_ne, bit-clear_self, bit-clear_ne, one_bit-lt}
use cindy_os.Base.{
  ℕ, zero, suc, ◌+◌, ◌-◌, ◌*◌, ◌/◌, ◌%◌, ◌^◌, ◌≤◌, ◌<◌, ◌≡◌, refl, ap, ◌∙◌, ◌≢◌, inl, inr, List,
  arith, ltb, ◌==◌, if◌then◌else◌, bit_and, bit_or, not32, Run, ok, fault, Returns, returns, length,
  get_or, set, length-set, get_or-set_self, get_or-set_ne, lt→ltb, le→ltb-false, Bool-cases, ==→eq,
}
use cindy_os.Base.Bits.{bit, bit-le-one, bit_or-lt, bit_and-le, bit_and_pow, bit-not, bit-zero}
use cindy_os.Memory.Bitmap.{pmm_set_bit, pmm_clear_bit, pmm_test_bit, full_word}
use native.Mathlib.Decide.{ℕ_discrete}

-- 1 GiB of frames is what 8192 words can hold.
abbrev pub frame_limit : ℕ
frame_limit = 262144

-- 1 for a frame in use, 0 for a free one.
unfoldable pub frame_bit : List ℕ → ℕ → ℕ
frame_bit bitmap f = bit (get_or bitmap (f / 32) 0) (f % 32)

pub record IsBitmap (bitmap : List ℕ) : Type 0 where
  pub size : length bitmap ≡ 8192
  pub words : (i : ℕ) → get_or bitmap i 0 < 4294967296

pub frame_bit-le-one : (bitmap : List ℕ) (f : ℕ) → frame_bit bitmap f ≤ 1
unfolding frame_bit
frame_bit-le-one bitmap f = bit-le-one (get_or bitmap (f / 32) 0) (f % 32)

-- Storing a word below 2 ^ 32 keeps a bitmap.
set-IsBitmap :
    {bitmap : List ℕ} (i v : ℕ)
    → IsBitmap bitmap
    → i < length bitmap
    → v < 4294967296
    → IsBitmap (set bitmap i v)
set-IsBitmap {bitmap} i v b h lt = record {
  size = length-set bitmap i v ∙ b.size;
  words = λ j. elim (ℕ_discrete i j) [
    | yes e ↦ rw (← e, get_or-set_self bitmap i v 0 h) lt
    | no ne ↦ rw (get_or-set_ne bitmap i j v 0 ne) (b.words j)
  ];
}

-- What a step on the bitmap did: frame `f` now reads `v`, every other frame as before.
pub record Marked (v f : ℕ) (before after : List ℕ) : Type 0 where
  pub valid : IsBitmap after
  pub at : frame_bit after f ≡ v
  pub rest : (g : ℕ) → g ≢ f → frame_bit after g ≡ frame_bit before g

-- A word that differs from the old one in bit `f % 32` at most.
store-Marked :
    {bitmap : List ℕ} (v w f : ℕ)
    → IsBitmap bitmap
    → f / 32 < length bitmap
    → w < 4294967296
    → bit w (f % 32) ≡ v
    → ((i : ℕ) → i < 32 → i ≢ f % 32 → bit w i ≡ bit (get_or bitmap (f / 32) 0) i)
    → Marked v f bitmap (set bitmap (f / 32) w)
unfolding frame_bit
store-Marked {bitmap} v w f b inside lt at same = record {
  valid = set-IsBitmap (f / 32) w b inside lt;
  at = rw (get_or-set_self bitmap (f / 32) w 0 inside) at;
  rest = λ g ne. elim (ℕ_discrete (f / 32) (g / 32)) [
    | yes e ↦
        rw (← e, get_or-set_self bitmap (f / 32) w 0 inside)
          (same (g % 32) (omega arith) (λ e'. ne (omega arith)))
    | no ne' ↦ rw (get_or-set_ne bitmap (f / 32) (g / 32) w 0 ne')
  ];
}

inside : {bitmap : List ℕ} (f : ℕ) → IsBitmap bitmap → f < frame_limit → f / 32 < length bitmap
inside f b h = omega (arith, b.size)

module _ {bitmap : List ℕ} (f : ℕ) (b : IsBitmap bitmap) (h : f < frame_limit) where
  pub pmm_set_bit_lem : Returns (Marked 1 f bitmap) (pmm_set_bit f bitmap)
  unfolding pmm_set_bit
  pmm_set_bit_lem = rw (lt→ltb (f / 32) (length bitmap) (inside f b h)) (
      returns (
        store-Marked 1 _ f b (inside f b h) (bit_or-lt 32 _ _ (b.words _) (one_bit-lt f))
          (bit-set_self (get_or bitmap (f / 32) 0) (f % 32))
          (λ i p ne. bit-set_ne (get_or bitmap (f / 32) 0) (f % 32) i ne)))

  pub pmm_clear_bit_lem : Returns (Marked 0 f bitmap) (pmm_clear_bit f bitmap)
  unfolding pmm_clear_bit
  pmm_clear_bit_lem = rw (lt→ltb (f / 32) (length bitmap) (inside f b h)) (
      returns (
        store-Marked 0 _ f b (inside f b h)
          (omega
            (arith, bit_and-le (get_or bitmap (f / 32) 0) (not32 (2 ^ (f % 32))), b.words (f / 32)))
          (bit-clear_self (get_or bitmap (f / 32) 0) (f % 32) (omega arith) (one_bit-lt f))
          (λ i p ne. bit-clear_ne (get_or bitmap (f / 32) 0) (f % 32) i p (one_bit-lt f) ne)))

  -- `pmm_test_bit` is nonzero exactly on a frame in use.
  pub pmm_test_bit_lem : pmm_test_bit f bitmap ≡ ok (frame_bit bitmap f * 2 ^ (f % 32))
  unfolding pmm_test_bit frame_bit
  pmm_test_bit_lem =
      rw (lt→ltb (f / 32) (length bitmap) (inside f b h))
        (ap ok (bit_and_pow (f % 32) (get_or bitmap (f / 32) 0)))

-- Past the last word the helpers leave the array.
pub pmm_bits_fault :
    {bitmap : List ℕ} (f : ℕ)
    → IsBitmap bitmap
    → frame_limit ≤ f
    → (pmm_set_bit f bitmap ≡ fault) × (pmm_clear_bit f bitmap ≡ fault)
unfolding pmm_set_bit pmm_clear_bit
pmm_bits_fault {bitmap} f b h =
    rw (le→ltb-false (f / 32) (length bitmap) (omega (arith, b.size))) (refl, refl)

-- Every bit of a full word is 1.
pub full_bits : (k : ℕ) → k < 32 → bit full_word k ≡ 1
full_bits k h = omega (arith, bit-not 32 k 0 (omega arith) h, bit-zero k)
