-- ===== src/Fat16/Name/Laws.antt =====
-- src/fat16.c: the 8.3 name of a file name, described without the loops.
use cindy_os.Base.{
  ℕ, zero, suc, ◌+◌, ◌≡◌, refl, sym, ap, ap₂, ◌∙◌, arith, ◌==◌, if◌then◌else◌, List, [], ◌∷◌, ◌++◌,
  map, length, set, replicate, Bool-cases, inl, inr, length-append,
}
use mathlib.Core.List.{append_assoc}
use cindy_os.Fat16.Name.{uppercase, fill_name, skip_to_dot, fill_ext, extension, fat16_format_83}

-- The characters before the first dot, and those after it.
unfoldable pub stem : List ℕ → List ℕ
stem [] = []
stem (c ∷ cs) = if c == b'.' then [] else c ∷ stem cs

unfoldable pub suffix : List ℕ → List ℕ
suffix [] = []
suffix (c ∷ cs) = if c == b'.' then cs else suffix cs

-- The first `n` characters, with blanks up to `n`.
unfoldable pub padded : ℕ → List ℕ → List ℕ
padded zero xs = []
padded (suc n) [] = b' ' ∷ padded n []
padded (suc n) (x ∷ xs) = x ∷ padded n xs

padded-nil : (n : ℕ) → padded n [] ≡ replicate n b' '
unfolding padded replicate
padded-nil zero = refl
padded-nil (suc n) = ap (λ t. b' ' ∷ t) (padded-nil n)

set-append :
    (pre : List ℕ) (x v : ℕ) (post : List ℕ)
    → set (pre ++ (x ∷ post)) (length pre) v ≡ pre ++ (v ∷ post)
set-append [] x v post = refl
set-append (y ∷ pre) x v post = ap (λ t. y ∷ t) (set-append pre x v post)

-- One character is stored at the end of what is filled.
store_next :
    (room c : ℕ) (pre : List ℕ)
    → set (pre ++ replicate (suc room) b' ') (length pre) c
      ≡ (pre ++ (c ∷ [])) ++ replicate room b' '
unfolding replicate
store_next room c pre =
    set-append pre b' ' c (replicate room b' ')
    ∙ sym (append_assoc pre (c ∷ []) (replicate room b' '))

length-snoc : (pre : List ℕ) (c : ℕ) → length pre + 1 ≡ length (pre ++ (c ∷ []))
length-snoc pre c = omega (arith, length-append pre (c ∷ []))

fill_name_lem :
    (room : ℕ) (input pre : List ℕ)
    → ((fill_name room (length pre) input (pre ++ replicate room b' ')).0
        ≡ pre ++ padded room (map uppercase (stem input)))
      × (extension
            (skip_to_dot (fill_name room (length pre) input (pre ++ replicate room b' ')).1)
            (replicate 3 b' ')
          ≡ extension (skip_to_dot input) (replicate 3 b' '))
unfolding fill_name padded stem skip_to_dot replicate
fill_name_lem zero input pre = (refl, refl)
fill_name_lem (suc room) [] pre = (ap (λ t. pre ++ t) (sym (padded-nil (suc room))), refl)
fill_name_lem (suc room) (c ∷ cs) pre = elim (Bool-cases (c == b'.')) [
  | inl dot ↦ rw dot (ap (λ t. pre ++ t) (sym (padded-nil (suc room))), rw dot)
  | inr other ↦
      rw (other, store_next room (uppercase c) pre, length-snoc pre (uppercase c))
        (let (name, rest) = fill_name_lem room cs (pre ++ (uppercase c ∷ [])) in
          (
            name ∙ append_assoc pre (uppercase c ∷ []) (padded room (map uppercase (stem cs))),
            rest,
          ))
]

fill_ext_lem :
    (room : ℕ) (input pre : List ℕ)
    → fill_ext room (length pre) input (pre ++ replicate room b' ')
      ≡ pre ++ padded room (map uppercase input)
unfolding fill_ext padded replicate
fill_ext_lem zero input pre = refl
fill_ext_lem (suc room) [] pre = ap (λ t. pre ++ t) (sym (padded-nil (suc room)))
fill_ext_lem (suc room) (c ∷ cs) pre =
    rw (store_next room (uppercase c) pre, length-snoc pre (uppercase c))
      (fill_ext_lem room cs (pre ++ (uppercase c ∷ []))
        ∙ append_assoc pre (uppercase c ∷ []) (padded room (map uppercase cs)))

extension_lem :
    (input : List ℕ)
    → extension (skip_to_dot input) (replicate 3 b' ') ≡ padded 3 (map uppercase (suffix input))
unfolding extension skip_to_dot suffix
extension_lem [] = sym (padded-nil 3)
extension_lem (c ∷ cs) = elim (Bool-cases (c == b'.')) [
  | inl dot ↦ rw dot (fill_ext_lem 3 cs [])
  | inr other ↦ rw other (extension_lem cs)
]

-- For every file name, `fat16_format_83` gives the first 8 characters before the first dot and the
-- first 3 after it, in upper case and padded with blanks.
pub fat16_format_83_lem :
    (input : List ℕ)
    → fat16_format_83 input
      ≡ (padded 8 (map uppercase (stem input)), padded 3 (map uppercase (suffix input)))
unfolding fat16_format_83
fat16_format_83_lem input =
    let (name, rest) = fill_name_lem 8 input [] in
    ap₂ (λ a b. (a, b)) name (rest ∙ extension_lem input)
