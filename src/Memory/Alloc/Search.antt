-- ===== src/Memory/Alloc/Search.antt =====
-- src/memory.c: the search of `pmm_alloc_block` finds the lowest 0 bit.
use cindy_os.Base.{
  ℕ, zero, suc, ◌+◌, ◌-◌, ◌*◌, ◌^◌, ◌≤◌, ◌<◌, ◌≡◌, refl, ap, ap₂, subst, subst₂, ◌∙◌, ◌⊎◌, inl, inr,
  Option, none, some, List, [], ◌∷◌, arith, ◌==◌, ◌!=◌, bit_and, length, get_or, Bool-cases, false,
  ==→eq, lt_or_le,
}
use cindy_os.Base.Bits.{bit, bit-le-one, bit_and_pow}
use cindy_os.Memory.{find_frame}
use cindy_os.Memory.Bitmap.{find_zero, full_word}
use cindy_os.Memory.Frames.{frame_bit, full_bits}
use native.Mathlib.Nat.{one-le-pow}

-- `o` is the first place from `lo` up to `hi` where `p` is 0.
abbrev pub FirstFree : (ℕ → ℕ) → ℕ → ℕ → Option ℕ → Type 0
FirstFree p lo hi none = (i : ℕ) → lo ≤ i → i < hi → p i ≡ 1
FirstFree p lo hi (some b) = (lo ≤ b) × (b < hi) × (p b ≡ 0) × ((i : ℕ) → lo ≤ i → i < b → p i ≡ 1)

FirstFree-nil : (p : ℕ → ℕ) (lo hi : ℕ) → hi ≤ lo → FirstFree p lo hi none
FirstFree-nil p lo hi h i q r = absurd (omega arith)

-- A stretch with no 0 may be put in front.
FirstFree-skip :
    (p : ℕ → ℕ) (lo mid hi : ℕ) (o : Option ℕ)
    → lo ≤ mid
    → ((i : ℕ) → lo ≤ i → i < mid → p i ≡ 1)
    → FirstFree p mid hi o
    → FirstFree p lo hi o
FirstFree-skip p lo mid hi none le ones f =
    λ i q r. elim (lt_or_le i mid) [ inl lt ↦ ones i q lt | inr ge ↦ f i ge r ]
FirstFree-skip p lo mid hi (some b) le ones f = (
  omega arith,
  f.1,
  f.2,
  λ i q r. elim (lt_or_le i mid) [ inl lt ↦ ones i q lt | inr ge ↦ f.3 i ge r ],
)

bit_test : (w b : ℕ) → (bit_and w (2 ^ b) == 0) ≡ (bit w b == 0)
bit_test w b =
    ground (
      arith,
      bit_and_pow b w,
      one-le-pow b 2 (omega arith),
      bit-le-one w b,
      values (bit w b) (2 ^ b),
    )
  where
    values : (t u : ℕ) → t ≤ 1 → (t ≡ 0) × (t * u ≡ 0) ⊎ (t ≡ 1) × (t * u ≡ u)
    values zero u h = inl (refl, omega arith)
    values (suc zero) u h = inr (refl, omega arith)
    values (suc (suc t)) u h = absurd (omega arith)

find_zero_lem : (rest b w : ℕ) → FirstFree (λ i. bit w i) b (b + rest) (find_zero rest b w)
unfolding find_zero
find_zero_lem zero b w = FirstFree-nil (λ i. bit w i) b (b + 0) (omega arith)
find_zero_lem (suc rest) b w = elim (Bool-cases (bit w b == 0)) [
  | inl hit ↦
      rw (bit_test w b, hit)
        (omega arith, omega arith, ==→eq _ _ hit, λ i q r. absurd (omega arith))
  | inr miss ↦
      rw (bit_test w b, miss)
        (FirstFree-skip (λ i. bit w i) b (b + 1) (b + suc rest) (find_zero rest (b + 1) w)
          (omega arith) (λ i q r. rw (same i q r) (one_of_test (bit w b) (bit-le-one w b) miss))
          (rw (shift b rest) (find_zero_lem rest (b + 1) w)))
]
  where
    same : (i : ℕ) → b ≤ i → i < b + 1 → i ≡ b
    same i q r = omega arith

    shift : (m n : ℕ) → m + suc n ≡ m + 1 + n
    shift m n = omega arith

    one_of_test : (t : ℕ) → t ≤ 1 → (t == 0) ≡ false → t ≡ 1
    one_of_test t h e = ground arith

-- Bit `g` of the bitmap for the frames of word `i`.
frame_of_word :
    (bitmap : List ℕ) (i k : ℕ) → k < 32 → frame_bit bitmap (i * 32 + k) ≡ bit (get_or bitmap i 0) k
unfolding frame_bit
frame_of_word bitmap i k h = ap₂ (λ a b. bit (get_or bitmap a 0) b) (omega arith) (omega arith)

-- One word searched on its own, as frames.
word_lem :
    (bitmap : List ℕ) (i : ℕ) (o : Option ℕ) (hi : ℕ)
    → i * 32 + 32 ≤ hi
    → FirstFree (λ k. bit (get_or bitmap i 0) k) 0 32 o
    → (later : Option ℕ) → FirstFree (frame_bit bitmap) (i * 32 + 32) hi later
    → FirstFree
        (frame_bit bitmap)
        (i * 32)
        hi
        (elim o [ some b ↦ some (i * 32 + b) | none ↦ later ])
word_lem bitmap i (some b) hi le f later g = (
  omega arith,
  omega arith,
  frame_of_word bitmap i b f.1 ∙ f.2,
  λ j q r.
      ap (frame_bit bitmap) (split j q)
      ∙ frame_of_word bitmap i (j - i * 32) (omega arith)
      ∙ f.3 (j - i * 32) (omega arith) (omega arith),
)
  where
    split : (j : ℕ) → i * 32 ≤ j → j ≡ i * 32 + (j - i * 32)
    split j q = omega arith
word_lem bitmap i none hi le f later g =
    FirstFree-skip (frame_bit bitmap) (i * 32) (i * 32 + 32) hi later (omega arith)
      (λ j q r.
        ap (frame_bit bitmap) (split j q)
        ∙ frame_of_word bitmap i (j - i * 32) (omega arith)
        ∙ f (j - i * 32) (omega arith) (omega arith))
      g
  where
    split : (j : ℕ) → i * 32 ≤ j → j ≡ i * 32 + (j - i * 32)
    split j q = omega arith

find_frame-cons :
    (bitmap ws : List ℕ) (w i : ℕ)
    → ((j : ℕ) → get_or (w ∷ ws) j 0 ≡ get_or bitmap (i + j) 0)
    → FirstFree (frame_bit bitmap) ((i + 1) * 32) ((i + 1 + length ws) * 32) (find_frame ws (i + 1))
    → FirstFree (frame_bit bitmap) (i * 32) ((i + suc (length ws)) * 32) (find_frame (w ∷ ws) i)
unfolding find_frame
find_frame-cons bitmap ws w i same tail = elim (Bool-cases (w != full_word)) [
  | inl some_zero ↦ rw some_zero (word (find_zero 32 0 w) (rw (← here) (find_zero_lem 32 0 w)))
  | inr full ↦ rw full (word none λ k p q. rw (← here, of_full w full) (full_bits k q))
]
  where
    here : w ≡ get_or bitmap i 0
    here = same 0 ∙ ap (λ k. get_or bitmap k 0) (omega arith)

    word :
        (o : Option ℕ)
        → FirstFree (λ k. bit (get_or bitmap i 0) k) 0 32 o
        → FirstFree
            (frame_bit bitmap)
            (i * 32)
            ((i + suc (length ws)) * 32)
            (elim o [ some b ↦ some (i * 32 + b) | none ↦ find_frame ws (i + 1) ])
    word o f =
        word_lem bitmap i o ((i + suc (length ws)) * 32) (omega arith) f (find_frame ws (i + 1)) (
          subst₂ (λ lo hi. FirstFree (frame_bit bitmap) lo hi (find_frame ws (i + 1)))
            {x = (i + 1) * 32} {y = i * 32 + 32} (omega arith) (omega arith) tail)

    of_full : (v : ℕ) → (v != full_word) ≡ false → v ≡ full_word
    of_full v e = ground arith

find_frame_from :
    (bitmap ws : List ℕ) (i : ℕ)
    → ((j : ℕ) → get_or ws j 0 ≡ get_or bitmap (i + j) 0)
    → FirstFree (frame_bit bitmap) (i * 32) ((i + length ws) * 32) (find_frame ws i)
unfolding find_frame
find_frame_from bitmap [] i same =
    FirstFree-nil (frame_bit bitmap) (i * 32) ((i + 0) * 32) (omega arith)
find_frame_from bitmap (w ∷ ws) i same = find_frame-cons bitmap ws w i same (
    find_frame_from bitmap ws (i + 1) λ j. same (suc j) ∙ ap (λ k. get_or bitmap k 0) (omega arith))

-- `find_frame` is the lowest frame whose bit is 0.
pub find_frame_lem :
    (bitmap : List ℕ) → FirstFree (frame_bit bitmap) 0 (length bitmap * 32) (find_frame bitmap 0)
find_frame_lem bitmap =
    subst (λ n. FirstFree (frame_bit bitmap) 0 (n * 32) (find_frame bitmap 0)) (omega arith)
      (find_frame_from bitmap bitmap 0 λ j. ap (λ k. get_or bitmap k 0) (omega arith))
