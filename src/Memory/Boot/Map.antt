-- ===== src/Memory/Boot/Map.antt =====
-- include/multiboot.h: a well-formed memory map, and the loop over it as a fold over its entries.
use cindy_os.Base.{
  ℕ, zero, suc, ◌+◌, ◌≤◌, ◌<◌, ◌≡◌, refl, ◌∙◌, List, [], ◌∷◌, arith, add32, Run, ok, fault,
  out_of_fuel, ◌>>=◌, length, lt→ltb, le→ltb-false,
}
use cindy_os.Base.Ram.{Ram, load32, load32_ext}
use cindy_os.Memory.Multiboot.{MmapEntry, load_entry, load_info, walk}

-- The entries that stand one after the other from `a` up to `stop`.
abbrev pub IsMap : Ram → ℕ → ℕ → List MmapEntry → Type 0
IsMap ram a stop [] = stop ≤ a
IsMap ram a stop (e ∷ es) =
    (a < stop)
    × (load_entry ram a ≡ e)
    × (a + e.size + 4 < 4294967296)
    × IsMap ram (a + e.size + 4) stop es

unfoldable pub fold_run {ℓ} : {S : Type ℓ} → (MmapEntry → S → Run S) → List MmapEntry → S → Run S
fold_run body [] s = ok s
fold_run body (e ∷ es) s = body e s >>= fold_run body es

bind_same {ℓ} :
    {S : Type ℓ} (r : Run S) (f g : S → Run S) → ((s : S) → f s ≡ g s) → (r >>= f) ≡ (r >>= g)
bind_same (ok s) f g h = h s
bind_same fault f g h = refl
bind_same out_of_fuel f g h = refl

-- On a well-formed map the loop visits each entry once, in order, and ends.
pub walk-fold_run {ℓ} :
    {S : Type ℓ} (fuel : ℕ) (ram : Ram) (a stop : ℕ) (body : MmapEntry → S → Run S)
    (es : List MmapEntry)
    → IsMap ram a stop es
    → length es < fuel
    → (s : S) → walk fuel ram a stop body s ≡ fold_run body es s
unfolding walk fold_run
walk-fold_run zero ram a stop body es map enough s = absurd (omega arith)
walk-fold_run (suc fuel) ram a stop body [] map enough s = rw (le→ltb-false a stop map)
walk-fold_run (suc fuel) ram a stop body (e ∷ es) (lt, here, small, rest) enough s =
    rw (lt→ltb a stop lt, here, next)
      (bind_same (body e s) _ _
        (walk-fold_run fuel ram (a + e.size + 4) stop body es rest (omega arith)))
  where
    next : add32 (add32 a e.size) 4 ≡ a + e.size + 4
    next = omega arith

load_entry-ext :
    (ram ram' : Ram) (a : ℕ)
    → ((x : ℕ) → a ≤ x → x < a + 24 → ram' x ≡ ram x)
    → load_entry ram' a ≡ load_entry ram a
unfolding load_entry
load_entry-ext ram ram' a same =
    rw
      (
        load32_ext ram' ram a (λ x lo hi. same x lo (omega arith)),
        word 4 (omega arith),
        word 8 (omega arith),
        word 12 (omega arith),
        word 16 (omega arith),
        word 20 (omega arith),
      )
      refl
  where
    word : (k : ℕ) → k ≤ 20 → load32 ram' (a + k) ≡ load32 ram (a + k)
    word k h = load32_ext ram' ram (a + k) (λ x lo hi. same x (omega arith) (omega arith))

-- The map is read from its own bytes, with those of one entry behind its end.
pub IsMap-ext :
    (ram ram' : Ram) (a stop : ℕ) (es : List MmapEntry)
    → IsMap ram a stop es
    → ((x : ℕ) → a ≤ x → x < stop + 24 → ram' x ≡ ram x)
    → IsMap ram' a stop es
IsMap-ext ram ram' a stop [] map same = map
IsMap-ext ram ram' a stop (e ∷ es) (lt, here, small, rest) same = (
  lt,
  load_entry-ext ram ram' a (λ x lo hi. same x lo (omega arith)) ∙ here,
  small,
  IsMap-ext ram ram' (a + e.size + 4) stop es rest (λ x lo hi. same x (omega arith) hi),
)

-- The structure of GRUB is read again later: where its bytes are the same, so is it.
pub load_info-ext :
    (ram ram' : Ram) (a : ℕ)
    → ((x : ℕ) → a ≤ x → x < a + 52 → ram' x ≡ ram x)
    → load_info ram' a ≡ load_info ram a
unfolding load_info
load_info-ext ram ram' a same =
    rw
      (
        load32_ext ram' ram a (λ x lo hi. same x lo (omega arith)),
        word 4 (omega arith),
        word 8 (omega arith),
        word 12 (omega arith),
        word 16 (omega arith),
        word 20 (omega arith),
        word 24 (omega arith),
        word 28 (omega arith),
        word 32 (omega arith),
        word 36 (omega arith),
        word 40 (omega arith),
        word 44 (omega arith),
        word 48 (omega arith),
      )
      refl
  where
    word : (k : ℕ) → k ≤ 48 → load32 ram' (a + k) ≡ load32 ram (a + k)
    word k h = load32_ext ram' ram (a + k) (λ x lo hi. same x (omega arith) (omega arith))
