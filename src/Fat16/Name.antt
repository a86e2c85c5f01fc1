-- ===== src/Fat16/Name.antt =====
-- src/fat16.c: `fat16_format_83`. The string is the list of its characters without the 0 at its end;
-- the arrays `name8` and `ext3` are lists of 8 and 3 bytes.
pub mod Laws
use cindy_os.Base.{
  ℕ, zero, suc, ◌+◌, ◌-◌, leb, ◌==◌, ◌&&◌, if◌then◌else◌, List, [], ◌∷◌, set, replicate,
}

-- `if (c >= 'a' && c <= 'z') c -= 32;`
unfoldable pub uppercase : ℕ → ℕ
uppercase c = if leb b'a' c && leb c b'z' then c - 32 else c

-- The first loop, with `room` places left from index `i` on: the name so far, and the input that is
-- left.
unfoldable pub fill_name : ℕ → ℕ → List ℕ → List ℕ → List ℕ × List ℕ
fill_name zero i input name8 = (name8, input)
fill_name (suc room) i [] name8 = (name8, [])
fill_name (suc room) i (c ∷ cs) name8 =
    let rest = fill_name room (i + 1) cs (set name8 i (uppercase c)) in
    if c == b'.' then (name8, c ∷ cs) else rest

-- `while (input[i] != '\0' && input[i] != '.') i++;`
unfoldable pub skip_to_dot : List ℕ → List ℕ
skip_to_dot [] = []
skip_to_dot (c ∷ cs) = let rest = skip_to_dot cs in if c == b'.' then c ∷ cs else rest

-- The last loop, with `room` places left from index `ext_i` on.
unfoldable pub fill_ext : ℕ → ℕ → List ℕ → List ℕ → List ℕ
fill_ext zero ext_i input ext3 = ext3
fill_ext (suc room) ext_i [] ext3 = ext3
fill_ext (suc room) ext_i (c ∷ cs) ext3 =
    fill_ext room (ext_i + 1) cs (set ext3 ext_i (uppercase c))

-- What follows the dot, if there is one.
unfoldable pub extension : List ℕ → List ℕ → List ℕ
extension [] ext3 = ext3
extension (dot ∷ cs) ext3 = fill_ext 3 0 cs ext3

-- The arrays `name8` and `ext3` afterwards.
unfoldable pub fat16_format_83 : List ℕ → List ℕ × List ℕ
fat16_format_83 input =
    let (name8, rest) = fill_name 8 0 input (replicate 8 b' ') in
    (name8, extension (skip_to_dot rest) (replicate 3 b' '))
