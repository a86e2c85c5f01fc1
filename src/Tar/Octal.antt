-- ===== src/Tar/Octal.antt =====
-- src/fs.c: `parse_octal` reads what octal digits denote.
use cindy_os.Base.{ℕ, ◌+◌, ◌*◌, ◌%◌, ◌<◌, ◌≡◌, refl, arith, List, [], ◌∷◌, length}
use cindy_os.Base.Ram.{Ram}
use cindy_os.Tar.{octal_from, parse_octal}

-- The digits stand in memory as characters from `a` on.
abbrev pub HoldsOctal : Ram → ℕ → List ℕ → Type 0
HoldsOctal m a [] = Unit
HoldsOctal m a (d ∷ ds) = (d < 8) × (m a ≡ b'0' + d) × HoldsOctal m (a + 1) ds

-- The number that the digits denote, after those read so far.
unfoldable pub octal_value : ℕ → List ℕ → ℕ
octal_value n [] = n
octal_value n (d ∷ ds) = octal_value (n * 8 + d) ds

octal_from_lem :
    (ds : List ℕ) (n size a : ℕ) (m : Ram)
    → HoldsOctal m a ds
    → size ≡ n % 4294967296
    → octal_from (length ds) size m a ≡ octal_value n ds % 4294967296
unfolding octal_from octal_value
octal_from_lem [] n size a m h e = e
octal_from_lem (d ∷ ds) n size a m h e =
    octal_from_lem ds (n * 8 + d) _ (a + 1) m h.2 (ground (arith, h.0, h.1))

-- `parse_octal` of octal digits returns the number that they denote, modulo 2 ^ 32.
pub parse_octal_lem :
    (ds : List ℕ) (a : ℕ) (m : Ram)
    → HoldsOctal m a ds
    → parse_octal m a (length ds) ≡ octal_value 0 ds % 4294967296
unfolding parse_octal
parse_octal_lem ds a m h = octal_from_lem ds 0 0 a m h refl
