-- ===== src/Base/Bits.antt =====
-- The bits of a word, and what `&`, `|` and `~` do to each of them, at every width.
mod Step
use Step.{bit_or_step, bit_and_step}
use Prim.Native.Nat.{ℕ, zero, suc, ◌+◌, ◌-◌, ◌*◌, ◌/◌, ◌%◌, ◌^◌, ◌≤◌, ◌<◌, min, max}
use Prim.Native.Nat.{bit_and, bit_or, bit_and-bitwise}
use mathlib.Core.Path.{◌≡◌, refl, sym, ap, ap₂, ◌∙◌}
use mathlib.Core.Logic.{◌≢◌}
use mathlib.Core.WellFounded
use native.Mathlib.Nat.{pow-suc, one-le-pow, div-div-eq-div-mul, div-add-mod', mod-lt}
use native.Mathlib.Omega.{arith}
use cindy_os.Base.Order.{lt_wf}

-- Bit `i` of `w`, 0 or 1.
unfoldable pub bit : ℕ → ℕ → ℕ
bit w zero = w % 2
bit w (suc i) = bit (w / 2) i

pub bit-le-one : (w i : ℕ) → bit w i ≤ 1
unfolding bit
bit-le-one w zero = omega arith
bit-le-one w (suc i) = bit-le-one (w / 2) i

pub bit-zero : (i : ℕ) → bit 0 i ≡ 0
unfolding bit
bit-zero zero = refl
bit-zero (suc i) = bit-zero i

half_or : (a b : ℕ) → bit_or a b / 2 ≡ bit_or (a / 2) (b / 2)
half_or a b = omega (arith, bit_or_step a b)

half_and : (a b : ℕ) → bit_and a b / 2 ≡ bit_and (a / 2) (b / 2)
half_and a b = omega (arith, bit_and_step a b)

pub bit-or : (i a b : ℕ) → bit (bit_or a b) i ≡ max (bit a i) (bit b i)
unfolding bit
bit-or zero a b = omega (arith, bit_or_step a b)
bit-or (suc i) a b = ap (λ t. bit t i) (half_or a b) ∙ bit-or i (a / 2) (b / 2)

pub bit-and : (i a b : ℕ) → bit (bit_and a b) i ≡ min (bit a i) (bit b i)
unfolding bit
bit-and zero a b = omega (arith, bit_and_step a b)
bit-and (suc i) a b = ap (λ t. bit t i) (half_and a b) ∙ bit-and i (a / 2) (b / 2)

two-pow-suc : (k : ℕ) → 2 ^ suc k ≡ 2 * 2 ^ k
two-pow-suc k = omega (arith, pow-suc 2 k)

mul-two-pow-suc : (c n : ℕ) → c * 2 ^ suc n ≡ 2 * (c * 2 ^ n)
mul-two-pow-suc c n = omega (arith, ap (λ (t : ℕ). c * t) (two-pow-suc n))

half_pow : (k : ℕ) → 2 ^ suc k / 2 ≡ 2 ^ k
half_pow k = omega (arith, two-pow-suc k)

pub bit-pow_self : (k : ℕ) → bit (2 ^ k) k ≡ 1
unfolding bit
bit-pow_self zero = refl
bit-pow_self (suc k) = ap (λ t. bit t k) (half_pow k) ∙ bit-pow_self k

pub bit-pow_ne : (k i : ℕ) → i ≢ k → bit (2 ^ k) i ≡ 0
unfolding bit
bit-pow_ne zero zero h = absurd (h refl)
bit-pow_ne zero (suc i) h = bit-zero i
bit-pow_ne (suc k) zero h = omega (arith, two-pow-suc k)
bit-pow_ne (suc k) (suc i) h = ap (λ t. bit t i) (half_pow k) ∙ bit-pow_ne k i (λ e. h (ap suc e))

half_not : (n x : ℕ) → x < 2 ^ suc n → (2 ^ suc n - 1 - x) / 2 ≡ 2 ^ n - 1 - x / 2
half_not n x h = omega (arith, two-pow-suc n, one-le-pow n 2)

-- The complement in `n` bits flips each of them.
pub bit-not : (n i x : ℕ) → x < 2 ^ n → i < n → bit (2 ^ n - 1 - x) i ≡ 1 - bit x i
unfolding bit
bit-not zero i x h lt = absurd (omega arith)
bit-not (suc n) zero x h lt = omega (arith, two-pow-suc n, one-le-pow n 2)
bit-not (suc n) (suc i) x h lt =
    ap (λ t. bit t i) (half_not n x h)
    ∙ bit-not n i (x / 2) (omega (arith, two-pow-suc n)) (omega arith)

-- A word whose `n` bits are all 1 is the largest one.
pub all_ones : (n w : ℕ) → w < 2 ^ n → ((i : ℕ) → i < n → bit w i ≡ 1) → w ≡ 2 ^ n - 1
unfolding bit
all_ones zero w h f = omega arith
all_ones (suc n) w h f = omega (
  arith,
  two-pow-suc n,
  one-le-pow n 2,
  f 0 (omega arith),
  all_ones n (w / 2) (omega (arith, two-pow-suc n)) (λ i p. f (suc i) (omega arith)),
)

-- Induction along the binary digits of a number.
by_halves : (P : ℕ → Type 0) → P 0 → ((k : ℕ) → P (suc k / 2) → P (suc k)) → (x : ℕ) → P x
by_halves P base half x = WellFounded.induction lt_wf x round
  where
    round : (k : ℕ) → ((j : ℕ) → j < k → P j) → P k
    round zero below = base
    round (suc k) below = half k (below (suc k / 2) (omega arith))

bit_and-zero : (x : ℕ) → bit_and x 0 ≡ 0
bit_and-zero =
    by_halves (λ y. bit_and y 0 ≡ 0) refl λ k half. omega (arith, bit_and_step (suc k) 0, half)

bit_or-zero : (x : ℕ) → bit_or x 0 ≡ x
bit_or-zero =
    by_halves (λ y. bit_or y 0 ≡ y) refl λ k half. omega (arith, bit_or_step (suc k) 0, half)

-- `w & m` with the low `k` bits of the mask clear.
pub bit_and_high : (k x m : ℕ) → bit_and x (m * 2 ^ k) ≡ bit_and (x / 2 ^ k) m * 2 ^ k
bit_and_high zero x m = omega (arith, ap₂ bit_and (whole x) (one_times m))
  where
    one_times : (t : ℕ) → t * 2 ^ 0 ≡ t
    one_times t = omega arith

    whole : (t : ℕ) → t ≡ t / 2 ^ 0
    whole t = omega arith
bit_and_high (suc k) x m =
    bit_and_step x (m * 2 ^ suc k)
    ∙ omega (
      arith,
      ap (λ t. bit_and (x / 2) t) (half_times m),
      bit_and_high k (x / 2) m,
      mul-two-pow-suc m k,
      mul-two-pow-suc (bit_and (x / 2 ^ suc k) m) k,
      ap (λ t. bit_and t m * 2 ^ k)
          (div-div-eq-div-mul x 2 (2 ^ k) ∙ ap (λ t. x / t) (sym (two-pow-suc k))),
    )
  where
    half_times : (t : ℕ) → t * 2 ^ suc k / 2 ≡ t * 2 ^ k
    half_times t = omega (arith, mul-two-pow-suc t k)

-- `w & (1 << k)` is the bit, in its place.
pub bit_and_pow : (k w : ℕ) → bit_and w (2 ^ k) ≡ bit w k * 2 ^ k
unfolding bit
bit_and_pow zero w = omega (arith, bit_and_step w 1, bit_and-zero (w / 2))
bit_and_pow (suc k) w =
    bit_and_step w (2 ^ suc k)
    ∙ omega (
      arith,
      two-pow-suc k,
      ap (λ t. bit_and (w / 2) t) (half_pow k),
      bit_and_pow k (w / 2),
      mul-two-pow-suc (bit (w / 2) k) k,
    )

bit_and_fields : (k q r : ℕ) → r < 2 ^ k → bit_and (q * 2 ^ k + r) (2 ^ k - 1) ≡ r
bit_and_fields zero q r lt = omega (arith, bit_and-zero (q * 1 + r))
bit_and_fields (suc k) q r lt =
    bit_and_step (q * 2 ^ suc k + r) (2 ^ suc k - 1)
    ∙ omega (
      arith,
      two-pow-suc k,
      one-le-pow k 2,
      ap₂ bit_and upper mask,
      bit_and_fields k q (r / 2) (omega (arith, two-pow-suc k)),
      mul-two-pow-suc q k,
    )
  where
    upper : (q * 2 ^ suc k + r) / 2 ≡ q * 2 ^ k + r / 2
    upper = omega (arith, mul-two-pow-suc q k)

    mask : (2 ^ suc k - 1) / 2 ≡ 2 ^ k - 1
    mask = omega (arith, two-pow-suc k, one-le-pow k 2)

-- `w & (2 ^ k - 1)` is the remainder.
pub bit_and_mask : (k x : ℕ) → bit_and x (2 ^ k - 1) ≡ x % 2 ^ k
bit_and_mask k x =
    ap (λ t. bit_and t (2 ^ k - 1)) (sym (div-add-mod' x (2 ^ k)))
    ∙ bit_and_fields k (x / 2 ^ k) (x % 2 ^ k) (mod-lt x (one-le-pow k 2 (omega arith)))

-- `(h << k) | l` is a sum when `l` fits `k` bits.
pub bit_or_low : (k h l : ℕ) → l < 2 ^ k → bit_or (h * 2 ^ k) l ≡ h * 2 ^ k + l
bit_or_low zero h zero lt = omega (arith, bit_or-zero (h * 1))
bit_or_low zero h (suc l) lt = absurd (omega arith)
bit_or_low (suc k) h l lt =
    bit_or_step (h * 2 ^ suc k) l
    ∙ omega (
      arith,
      two-pow-suc k,
      mul-two-pow-suc h k,
      ap (λ t. bit_or t (l / 2)) upper,
      bit_or_low k h (l / 2) (omega (arith, two-pow-suc k)),
    )
  where
    upper : h * 2 ^ suc k / 2 ≡ h * 2 ^ k
    upper = omega (arith, mul-two-pow-suc h k)

-- `|` stays inside the width of its operands.
pub bit_or-lt : (n a b : ℕ) → a < 2 ^ n → b < 2 ^ n → bit_or a b < 2 ^ n
bit_or-lt zero zero zero p q = omega arith
bit_or-lt zero zero (suc b) p q = absurd (omega arith)
bit_or-lt zero (suc a) b p q = absurd (omega arith)
bit_or-lt (suc n) a b p q = omega (
  arith,
  two-pow-suc n,
  bit_or_step a b,
  bit_or-lt n (a / 2) (b / 2) (omega (arith, two-pow-suc n)) (omega (arith, two-pow-suc n)),
)

pub bit_and-le : (a b : ℕ) → bit_and a b ≤ a
bit_and-le a b = WellFounded.induction lt_wf {C = λ n. (m : ℕ) → bit_and n m ≤ n} a step b
  where
    step : (n : ℕ) → ((k : ℕ) → k < n → (m : ℕ) → bit_and k m ≤ k) → (m : ℕ) → bit_and n m ≤ n
    step zero ih m = omega (arith, bit_and_step 0 m, bit_and_step 0 (m / 2), zero_and m)
      where
        zero_and : (t : ℕ) → bit_and 0 t ≡ 0
        zero_and t = bit_and-bitwise 0 t
    step (suc n) ih m = omega (arith, bit_and_step (suc n) m, ih (suc n / 2) (omega arith) (m / 2))

-- The two masks that the kernel puts on addresses: `& 0xFFFFF000` and `& 0xFFF`.
pub page_mask : (x : ℕ) → x < 4294967296 → bit_and x 0xFFFFF000 ≡ x / 4096 * 4096
page_mask x h = bit_and_high 12 x 0xFFFFF ∙ omega (arith, bit_and_mask 20 (x / 4096))

pub page_offset : (x : ℕ) → bit_and x 0xFFF ≡ x % 4096
page_offset x = bit_and_mask 12 x

-- A bit above a nibble.
pub nibble_or : (n : ℕ) → n < 16 → bit_or n 64 ≡ n + 64
nibble_or n h = omega (
  arith,
  bit_or_step n 64,
  bit_or_step (n / 2) (64 / 2),
  bit_or_step (n / 2 / 2) (64 / 2 / 2),
  bit_or_step (n / 2 / 2 / 2) (64 / 2 / 2 / 2),
  ap (λ t. bit_or t 4) none_left,
)
  where
    none_left : n / 2 / 2 / 2 / 2 ≡ 0
    none_left = omega arith

pub or_one_odd : (n : ℕ) → bit_or n 1 % 2 ≡ 1
or_one_odd n = omega (arith, bit_or_step n 1)
