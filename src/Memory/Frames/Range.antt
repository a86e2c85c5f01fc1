-- ===== src/Memory/Frames/Range.antt =====
-- src/memory.c: the loops that set or clear the bits of consecutive frames.
use cindy_os.Base.{
  ℕ, zero, suc, ◌+◌, ◌≤◌, ◌<◌, ◌≡◌, ◌≢◌, ◌⊎◌, inl, inr, refl, ◌∙◌, List, arith, Returns, returns,
  Returns-bind, Returns-mono,
}
use cindy_os.Memory.{set_frames, clear_frames}
use cindy_os.Memory.Frames.{
  frame_limit, frame_bit, IsBitmap, Marked, pmm_set_bit_lem, pmm_clear_bit_lem,
}
use native.Mathlib.Decide.{ℕ_discrete}

-- The frames from `first` up to but not including `stop` read `v`, the others as before.
pub record MarkedRange (v first stop : ℕ) (before after : List ℕ) : Type 0 where
  pub valid : IsBitmap after
  pub within : (g : ℕ) → first ≤ g → g < stop → frame_bit after g ≡ v
  pub outside : (g : ℕ) → (g < first) ⊎ (stop ≤ g) → frame_bit after g ≡ frame_bit before g

MarkedRange-nil :
    {v first stop : ℕ} {bitmap : List ℕ}
    → IsBitmap bitmap
    → stop ≤ first
    → MarkedRange v first stop bitmap bitmap
MarkedRange-nil b h = record {
  valid = b;
  within = λ g p q. absurd (omega arith);
  outside = λ g o. refl;
}

MarkedRange-cons :
    {v first stop : ℕ} {b₀ b₁ b₂ : List ℕ}
    → first < stop
    → Marked v first b₀ b₁
    → MarkedRange v (first + 1) stop b₁ b₂
    → MarkedRange v first stop b₀ b₂
MarkedRange-cons {v} {first} {stop} h one more = record {
  valid = more.valid;
  within = λ g p q. elim (ℕ_discrete g first) [
    | yes e ↦ more.outside g (inl (omega arith)) ∙ rw e one.at
    | no ne ↦ more.within g (omega arith) q
  ];
  outside = λ g o. more.outside g (widen g o) ∙ one.rest g (apart g o);
}
  where
    widen : (g : ℕ) → (g < first) ⊎ (stop ≤ g) → (g < first + 1) ⊎ (stop ≤ g)
    widen g (inl p) = inl (omega arith)
    widen g (inr p) = inr p

    apart : (g : ℕ) → (g < first) ⊎ (stop ≤ g) → g ≢ first
    apart g o = omega arith

pub set_frames_lem :
    (count first : ℕ) {bitmap : List ℕ}
    → IsBitmap bitmap
    → first + count ≤ frame_limit
    → Returns (MarkedRange 1 first (first + count) bitmap) (set_frames count first bitmap)
unfolding set_frames
set_frames_lem zero first b h = returns (MarkedRange-nil b (omega arith))
set_frames_lem (suc count) first b h =
    Returns-bind (pmm_set_bit_lem first b (omega arith)) λ b₁ one.
      Returns-mono (set_frames_lem count (first + 1) one.valid (omega arith))
        λ b₂ more. MarkedRange-cons (omega arith) one (rw (shift first count) more)
  where
    shift : (m n : ℕ) → m + suc n ≡ m + 1 + n
    shift m n = omega arith

pub clear_frames_lem :
    (count first : ℕ) {bitmap : List ℕ}
    → IsBitmap bitmap
    → first + count ≤ frame_limit
    → Returns (MarkedRange 0 first (first + count) bitmap) (clear_frames count first bitmap)
unfolding clear_frames
clear_frames_lem zero first b h = returns (MarkedRange-nil b (omega arith))
clear_frames_lem (suc count) first b h =
    Returns-bind (pmm_clear_bit_lem first b (omega arith)) λ b₁ one.
      Returns-mono (clear_frames_lem count (first + 1) one.valid (omega arith))
        λ b₂ more. MarkedRange-cons (omega arith) one (rw (shift first count) more)
  where
    shift : (m n : ℕ) → m + suc n ≡ m + 1 + n
    shift m n = omega arith
