-- ===== src/Paging/Init/Table.antt =====
-- src/paging.c: the table that `init_paging` fills for 4 MiB.
use cindy_os.Base.{
  ℕ, zero, suc, ◌+◌, ◌*◌, ◌≤◌, ◌<◌, ◌≡◌, ◌⊎◌, refl, ap, ◌∙◌, inl, inr, arith, bit_or, u32, lt_or_le,
}
use cindy_os.Base.Ram.{Ram, load32, store32, store32_outside, load32-store32_self, load32_ext}
use cindy_os.Base.Bits.{bit_or_low}
use cindy_os.Paging.{fill_table}
use cindy_os.Paging.Tables.{IsRam, store32-IsRam}

pub fill_table-outside :
    (count t p table : ℕ) (ram : Ram) (x : ℕ)
    → (x < table + 4 * p) ⊎ (table + 4 * (p + count) ≤ x)
    → fill_table count t p table ram x ≡ ram x
unfolding fill_table
fill_table-outside zero t p table ram x o = refl
fill_table-outside (suc count) t p table ram x o =
    fill_table-outside count t (p + 1) table _ x (omega arith)
    ∙ store32_outside ram (table + 4 * p) _ x (omega arith)

pub fill_table-IsRam :
    (count t p table : ℕ) (ram : Ram) → IsRam ram → IsRam (fill_table count t p table ram)
unfolding fill_table
fill_table-IsRam zero t p table ram b = b
fill_table-IsRam (suc count) t p table ram b =
    fill_table-IsRam count t (p + 1) table _ (store32-IsRam ram (table + 4 * p) _ b)

-- The entry of page `j` of the table for `t`, with the flags present, writable and user.
identity_entry :
    (t j : ℕ)
    → t < 1024
    → j < 1024
    → bit_or (u32 ((t * 1024 + j) * 0x1000)) 7 ≡ (t * 1024 + j) * 4096 + 7
identity_entry t j ht hj =
    ap (λ n. bit_or n 7) (omega arith) ∙ bit_or_low 12 (t * 1024 + j) 7 (omega arith)

pub fill_table-entry :
    (count t p table : ℕ) (ram : Ram) (j : ℕ)
    → t < 1024
    → p + count ≤ 1024
    → p ≤ j
    → j < p + count
    → load32 (fill_table count t p table ram) (table + 4 * j) ≡ (t * 1024 + j) * 4096 + 7
unfolding fill_table
fill_table-entry zero t p table ram j ht le lo hi = absurd (omega arith)
fill_table-entry (suc count) t p table ram j ht le lo hi = elim (lt_or_le p j) [
  | inl later ↦
      fill_table-entry count t (p + 1) table _ j ht (omega arith) (omega arith) (omega arith)
  | inr here ↦
      load32_ext _ (store32 ram (table + 4 * p) _) (table + 4 * j)
        (λ x lo' hi'. fill_table-outside count t (p + 1) table _ x (inl (omega arith)))
      ∙ (ap (load32 _) (omega arith)
          ∙ (load32-store32_self ram (table + 4 * p) _
                (omega (arith, identity_entry t p ht (omega arith)))
              ∙ (identity_entry t p ht (omega arith) ∙ omega arith)))
]
