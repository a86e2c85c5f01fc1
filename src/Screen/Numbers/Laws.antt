-- ===== src/Screen/Numbers/Laws.antt =====
-- src/screen.c: the digits that are printed denote the number.
use cindy_os.Base.{
  ℕ, zero, suc, ◌+◌, ◌-◌, ◌*◌, ◌/◌, ◌%◌, ◌^◌, ◌≤◌, ◌<◌, ◌≡◌, ◌≢◌, refl, ap, ◌∙◌, bit_and, leb, ltb,
  ◌==◌, if◌then◌else◌, List, [], ◌∷◌, ◌++◌, length, get_or, Returns, returns, Bool-cases, inl, inr,
  true, arith, Bool, false, lt_or_le, ◌⊎◌, ne→==, ==→eq,
}
use cindy_os.Base.Bits.{bit_and_mask}
use cindy_os.Screen.Numbers.{int_digits, int_text, hex_chars, hex_digits}
use mathlib.Core.List.{reverse, reverse-cons}
use native.Mathlib.Nat.{pow-suc}

-- What a reader makes of the digits after those read so far.
unfoldable pub decimal : ℕ → List ℕ → ℕ
decimal n [] = n
decimal n (c ∷ cs) = decimal (n * 10 + (c - b'0')) cs

unfoldable pub hex_value : ℕ → ℕ
hex_value c = if ltb c b'A' then c - b'0' else c - b'A' + 10

unfoldable pub hexadecimal : ℕ → List ℕ → ℕ
hexadecimal n [] = n
hexadecimal n (c ∷ cs) = hexadecimal (n * 16 + hex_value c) cs

abbrev pub AllDigits : List ℕ → Type 0
AllDigits [] = Unit
AllDigits (c ∷ cs) = (b'0' ≤ c) × (c ≤ b'9') × AllDigits cs

decimal-append : (n : ℕ) (xs ys : List ℕ) → decimal n (xs ++ ys) ≡ decimal (decimal n xs) ys
unfolding decimal
decimal-append n [] ys = refl
decimal-append n (x ∷ xs) ys = decimal-append (n * 10 + (x - b'0')) xs ys

AllDigits-append : (xs ys : List ℕ) → AllDigits xs → AllDigits ys → AllDigits (xs ++ ys)
AllDigits-append [] ys p q = q
AllDigits-append (x ∷ xs) ys p q = (p.0, p.1, AllDigits-append xs ys p.2 q)

int_digits_lem : (room num : ℕ) → num < 10 ^ room → decimal 0 (reverse (int_digits room num)) ≡ num
unfolding int_digits decimal
int_digits_lem zero num h = omega arith
int_digits_lem (suc room) num h = elim (Bool-cases (num == 0)) [
  | inl none_left ↦ rw none_left (ground arith)
  | inr more ↦
      rw
        (
          more,
          reverse-cons (num % 10 + b'0') (int_digits room (num / 10)),
          decimal-append 0 (reverse (int_digits room (num / 10))) ((num % 10 + b'0') ∷ []),
          int_digits_lem room (num / 10) (omega (arith, pow-suc 10 room)),
        )
        (omega arith)
]

int_digits-AllDigits : (room num : ℕ) → AllDigits (reverse (int_digits room num))
unfolding int_digits
int_digits-AllDigits zero num = tt
int_digits-AllDigits (suc room) num = elim (Bool-cases (num == 0)) [
  | inl none_left ↦ rw none_left tt
  | inr more ↦
      rw (more, reverse-cons (num % 10 + b'0') (int_digits room (num / 10)))
        (AllDigits-append (reverse (int_digits room (num / 10))) ((num % 10 + b'0') ∷ [])
          (int_digits-AllDigits room (num / 10)) (omega arith, omega arith, tt))
]

some_digits : (ds : List ℕ) {num : ℕ} → decimal 0 ds ≡ num → 0 < num → 0 < length ds
unfolding decimal
some_digits [] e pos = absurd (omega arith)
some_digits (c ∷ cs) e pos = omega arith

-- The text of an `int`, given by its pattern: one or more decimal digits, after a `-` for a negative number.
abbrev pub Denotes : ℕ → List ℕ → Type 0
Denotes num t =
    ((num < 2147483648) × (0 < length t) × AllDigits t × (decimal 0 t ≡ num))
    ⊎ ((2147483648 < num)
        × ((ds : List ℕ) × (t ≡ b'-' ∷ ds)
            × (0 < length ds)
            × AllDigits ds
            × (decimal 0 ds ≡ 4294967296 - num)))

-- For every `int` but the smallest, the characters that `print_int` prints are one or more decimal
-- digits that denote it, after a `-` if it is negative; its buffer of 16 digits is large enough.
pub int_text_lem :
    (num : ℕ) → num < 4294967296 → num ≢ 2147483648 → Returns (Denotes num) (int_text num)
unfolding int_text decimal
int_text_lem num small ne = elim (Bool-cases (num == 0)) [
  | inl none ↦
      rw none
        (returns (inl (ground arith, omega arith, (omega arith, omega arith, tt), zero_text none)))
  | inr some ↦
      rw (some, ne→== num 2147483648 ne)
        (elim (Bool-cases (leb 2147483648 num)) [
          | inl negative ↦ rw negative (
              returns (
                inr (
                  ground arith,
                  (
                    reverse (int_digits 16 (4294967296 - num)),
                    refl,
                    some_digits _ (int_digits_lem 16 (4294967296 - num) (omega arith))
                        (omega arith),
                    int_digits-AllDigits 16 (4294967296 - num),
                    int_digits_lem 16 (4294967296 - num) (omega arith),
                  ),
                )))
          | inr positive ↦ rw positive (
              returns (
                inl (
                  ground arith,
                  some_digits _ (int_digits_lem 16 num (omega arith)) (nonzero some),
                  int_digits-AllDigits 16 num,
                  int_digits_lem 16 num (omega arith),
                )))
        ])
]
  where
    zero_text : (num == 0) ≡ true → decimal 0 (b'0' ∷ []) ≡ num
    zero_text e = ground arith

    nonzero : (num == 0) ≡ false → 0 < num
    nonzero e = ground arith

-- Every character up to that of a digit is read back.
hex_right : ℕ → Bool
hex_right zero = hex_value (get_or hex_chars 0 0) == 0
hex_right (suc d) = if hex_value (get_or hex_chars (suc d) 0) == suc d then hex_right d else false

hex_right-at : (top d : ℕ) → d ≤ top → hex_right top ≡ true → hex_value (get_or hex_chars d 0) ≡ d
unfolding hex_right
hex_right-at zero d le right = let e : d ≡ 0 = omega arith in rw e (==→eq _ 0 right)
hex_right-at (suc top) d le right = elim (lt_or_le top d) [
  | inl last ↦ let e : d ≡ suc top = omega arith in rw e (ground arith)
  | inr below ↦ hex_right-at top d below (ground arith)
]

hex_digit : (x : ℕ) → hex_value (get_or hex_chars (bit_and x 0xF) 0) ≡ x % 16
unfolding hex_right hex_value hex_chars
hex_digit x =
    ap (λ d. hex_value (get_or hex_chars d 0)) (bit_and_mask 4 x)
    ∙ hex_right-at 15 (x % 16) (omega arith) refl

-- The eight characters that `print_hex` prints after `0X` denote the number.
pub hex_digits_lem : (num : ℕ) → num < 4294967296 → hexadecimal 0 (hex_digits 8 num) ≡ num
unfolding hexadecimal hex_digits
hex_digits_lem num small = omega (
  arith,
  hex_digit (num / 2 ^ 28),
  hex_digit (num / 2 ^ 24),
  hex_digit (num / 2 ^ 20),
  hex_digit (num / 2 ^ 16),
  hex_digit (num / 2 ^ 12),
  hex_digit (num / 2 ^ 8),
  hex_digit (num / 2 ^ 4),
  hex_digit (num / 2 ^ 0),
)
