-- ===== src/Screen/Numbers.antt =====
-- src/screen.c: `print_int` and `print_hex`. The characters that each prints, one call of `print` for
-- each, and what a reader makes of them.
pub mod Laws
use cindy_os.Base.{
  ℕ, zero, suc, ◌+◌, ◌-◌, ◌*◌, ◌/◌, ◌%◌, bit_and, leb, ◌==◌, if◌then◌else◌, List, [], ◌∷◌, ◌++◌,
  text, get_or, Run, ok, fault, ◌>>=◌, ◌>>>◌,
}
use cindy_os.Screen.{Screen, print}
use mathlib.Core.List.{reverse}

-- `print` of a string of one character, for each character in turn.
unfoldable pub print_each : List ℕ → Screen → Screen
print_each [] s = s
print_each (c ∷ cs) s = print_each cs (print (c ∷ []) s)

-- `while (num > 0)`: the array `buffer`, which has room for 16 digits, the lowest digit first.
unfoldable pub int_digits : ℕ → ℕ → List ℕ
int_digits zero num = []
int_digits (suc room) num =
    let rest = int_digits room (num / 10) in if num == 0 then [] else (num % 10 + b'0') ∷ rest

-- `num` is the pattern of an `int`; negating the smallest one is undefined.
unfoldable pub int_text : ℕ → Run (List ℕ)
int_text num =
    if num == 0
    then ok (b'0' ∷ [])
    else if num == 2147483648
    then fault
    else if leb 2147483648 num
    then ok (b'-' ∷ reverse (int_digits 16 (4294967296 - num)))
    else ok (reverse (int_digits 16 num))

unfoldable pub hex_chars : List ℕ
hex_chars = text "0123456789ABCDEF"

-- `for (i = 28; i >= 0; i -= 4)`: the digits from the one at bit `4 * (count - 1)` down.
unfoldable pub hex_digits : ℕ → ℕ → List ℕ
hex_digits zero num = []
hex_digits (suc count) num =
    get_or hex_chars (bit_and (num >>> (4 * count)) 0xF) 0 ∷ hex_digits count num

unfoldable pub print_int : ℕ → Screen → Run Screen
print_int num s = do chars ← int_text num; ok (print_each chars s)

unfoldable pub print_hex : ℕ → Screen → Screen
print_hex num s = print_each (hex_digits 8 num) (print (text "0X") s)
