-- ===== src/CString.antt =====
-- src/string.c over byte memory: a pointer is an address. The loops over strings run on fuel.
pub mod Laws
pub mod Strings
mod Tests
use cindy_os.Base.{
  ℕ, zero, suc, ◌+◌, ◌-◌, ◌%◌, Bool, ◌==◌, ◌!=◌, ltb, if◌then◌else◌, ◌&&◌, List, [], ◌∷◌, sub32, u8,
  Run, ok, out_of_fuel,
}
use cindy_os.Base.Ram.{Ram, store8}

-- The difference of two `unsigned char`, as an `int`.
abbrev pub byte_difference : ℕ → ℕ → ℕ
byte_difference a b = sub32 a b

pub strcmp : ℕ → Ram → ℕ → ℕ → Run ℕ
strcmp zero m s1 s2 = out_of_fuel
strcmp (suc fuel) m s1 s2 =
    let rest = strcmp fuel m (s1 + 1) (s2 + 1) in
    if m s1 != 0 && m s1 == m s2 then rest else ok (byte_difference (m s1) (m s2))

unfoldable pub strncmp : Ram → ℕ → ℕ → ℕ → ℕ
strncmp m s1 s2 zero = 0
strncmp m s1 s2 (suc n) =
    let rest = strncmp m (s1 + 1) (s2 + 1) n in
    if m s1 != 0 && m s1 == m s2 then rest else byte_difference (m s1) (m s2)

-- The loop of `strlen` from `len` on.
pub strlen_from : ℕ → Ram → ℕ → ℕ → Run ℕ
strlen_from zero m s len = out_of_fuel
strlen_from (suc fuel) m s len =
    let rest = strlen_from fuel m s (len + 1) in if m (s + len) != 0 then rest else ok len

pub strlen : ℕ → Ram → ℕ → Run ℕ
strlen fuel m s = strlen_from fuel m s 0

pub memset : ℕ → ℕ → ℕ → Ram → Ram
memset p val zero m = m
memset p val (suc n) m = memset (p + 1) val n (store8 m p (u8 val))

-- Byte by byte from the front, each read after the writes before it.
pub memcpy : ℕ → ℕ → ℕ → Ram → Ram
memcpy d s zero m = m
memcpy d s (suc n) m = memcpy (d + 1) (s + 1) n (store8 m d (m s))

-- The bytes that `print` shows of a buffer: those before the first 0.
unfoldable pub printed : List ℕ → List ℕ
printed [] = []
printed (c ∷ cs) = if c == 0 then [] else c ∷ printed cs
