-- ===== src/Base/Ram.antt =====
-- Physical memory: a byte at each address, and the little-endian accesses of the i386.
use Prim.Native.Nat.{ℕ, ◌+◌, ◌*◌, ◌/◌, ◌%◌, ◌≤◌, ◌<◌}
use mathlib.Core.Path.{◌≡◌}
use mathlib.Core.Logic.{◌≢◌, ◌⊎◌}
use native.Mathlib.Omega.{arith}
use cindy_os.Base.Tests.{◌==◌, if◌then◌else◌}

abbrev pub Ram : Type 0
Ram = ℕ → ℕ

unfoldable pub store8 : Ram → ℕ → ℕ → Ram
store8 m a v x = if x == a then v % 256 else m x

pub store8_self : (m : Ram) (a v : ℕ) → store8 m a v a ≡ v % 256
unfolding store8
store8_self m a v = ground arith

pub store8_ne : (m : Ram) (a v x : ℕ) → x ≢ a → store8 m a v x ≡ m x
unfolding store8
store8_ne m a v x ne = ground arith

unfoldable pub load16 : Ram → ℕ → ℕ
load16 m a = m a + m (a + 1) * 256

unfoldable pub load32 : Ram → ℕ → ℕ
load32 m a = m a + m (a + 1) * 256 + m (a + 2) * 65536 + m (a + 3) * 16777216

unfoldable pub store32 : Ram → ℕ → ℕ → Ram
store32 m a v x =
    if x == a
    then v % 256
    else if x == a + 1
    then v / 256 % 256
    else if x == a + 2
    then v / 65536 % 256
    else if x == a + 3
    then v / 16777216 % 256
    else m x

pub load32-store32_self : (m : Ram) (a v : ℕ) → v < 4294967296 → load32 (store32 m a v) a ≡ v
unfolding load32 store32
load32-store32_self m a v h = ground arith

pub store32_outside : (m : Ram) (a v x : ℕ) → (x < a) ⊎ (a + 4 ≤ x) → store32 m a v x ≡ m x
unfolding store32
store32_outside m a v x h = ground arith

pub load32-store32_apart :
    (m : Ram) (a b v : ℕ) → (b + 4 ≤ a) ⊎ (a + 4 ≤ b) → load32 (store32 m a v) b ≡ load32 m b
unfolding load32
load32-store32_apart m a b v h = omega (
  arith,
  store32_outside m a v b (omega arith),
  store32_outside m a v (b + 1) (omega arith),
  store32_outside m a v (b + 2) (omega arith),
  store32_outside m a v (b + 3) (omega arith),
)

-- A word is determined by its four bytes.
pub load32_ext :
    (m n : Ram) (a : ℕ) → ((x : ℕ) → a ≤ x → x < a + 4 → m x ≡ n x) → load32 m a ≡ load32 n a
unfolding load32
load32_ext m n a h = omega (
  arith,
  h a (omega arith) (omega arith),
  h (a + 1) (omega arith) (omega arith),
  h (a + 2) (omega arith) (omega arith),
  h (a + 3) (omega arith) (omega arith),
)

pub zero_load : (m : Ram) (a : ℕ) → ((x : ℕ) → a ≤ x → x < a + 4 → m x ≡ 0) → load32 m a ≡ 0
unfolding load32
zero_load m a h = omega (
  arith,
  h a (omega arith) (omega arith),
  h (a + 1) (omega arith) (omega arith),
  h (a + 2) (omega arith) (omega arith),
  h (a + 3) (omega arith) (omega arith),
)
