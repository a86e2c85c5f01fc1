-- ===== src/Base/Word.antt =====
-- The fixed widths of C: `uint8_t`, `uint16_t`, `uint32_t`, wrapping arithmetic and shifts.
use Prim.Native.Nat.{ℕ, ◌+◌, ◌-◌, ◌*◌, ◌/◌, ◌%◌, ◌^◌}

abbrev pub u8 : ℕ → ℕ
u8 n = n % 256

abbrev pub u16 : ℕ → ℕ
u16 n = n % 65536

abbrev pub u32_mod : ℕ
u32_mod = 4294967296

abbrev pub u32 : ℕ → ℕ
u32 n = n % 4294967296

-- `a + b` and `a - b` on `uint32_t`, for operands below 2 ^ 32.
abbrev pub add32 : ℕ → ℕ → ℕ
add32 a b = (a + b) % 4294967296

abbrev pub sub32 : ℕ → ℕ → ℕ
sub32 a b = (a + 4294967296 - b) % 4294967296

infixl 75 ◌<<<◌ ◌>>>◌
abbrev pub ◌<<<◌ : ℕ → ℕ → ℕ
x <<< k = x * 2 ^ k

abbrev pub ◌>>>◌ : ℕ → ℕ → ℕ
x >>> k = x / 2 ^ k

-- `~x` on `uint32_t`, for `x` below 2 ^ 32.
abbrev pub not32 : ℕ → ℕ
not32 x = 4294967295 - x

-- An `int` is kept as its bit pattern; -1 is all ones.
abbrev pub minus_one : ℕ
minus_one = 4294967295
