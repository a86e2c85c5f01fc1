-- ===== src/Paging/Map/Install.antt =====
-- src/paging.c: the memory after `map_page` has installed a new page table.
use cindy_os.Base.{ℕ, ◌+◌, ◌*◌, ◌≤◌, ◌<◌, ◌≡◌, ◌⊎◌, ◌∙◌, arith, bit_or}
use cindy_os.Base.Bits.{bit_or_low}
use cindy_os.Base.Ram.{
  Ram, load32, store32, load32-store32_self, load32-store32_apart, load32_ext, zero_load,
}
use cindy_os.Paging.{zero_words}
use cindy_os.Paging.Tables.{
  IsRam, store32-IsRam, zero_words-outside, zero_words-inside, zero_words-IsRam,
}

-- Directory entry at `at`, new table in frame `f`, entry `v` in word `j` of the table.
unfoldable pub install : Ram → ℕ → ℕ → ℕ → ℕ → Ram
install ram at f j v =
    store32 (zero_words 1024 (f * 4096) (store32 ram at (bit_or (f * 4096) 7))) (f * 4096 + 4 * j) v

pub record Installed (ram : Ram) (at f j v : ℕ) (ram' : Ram) : Type 0 where
  pub pde : load32 ram' at ≡ f * 4096 + 7
  pub word : load32 ram' (f * 4096 + 4 * j) ≡ v
  pub cleared : (k : ℕ) → k < 1024 → (k < j) ⊎ (j < k) → load32 ram' (f * 4096 + 4 * k) ≡ 0
  pub rest :
      (a : ℕ)
      → (a + 4 ≤ f * 4096) ⊎ (f * 4096 + 4096 ≤ a)
      → (a + 4 ≤ at) ⊎ (at + 4 ≤ a)
      → load32 ram' a ≡ load32 ram a
  pub bytes : IsRam ram'

pub install_lem :
    (ram : Ram) (at f j v : ℕ)
    → IsRam ram
    → (at + 4 ≤ f * 4096) ⊎ (f * 4096 + 4096 ≤ at)
    → f * 4096 + 7 < 4294967296
    → j < 1024
    → v < 4294967296
    → Installed ram at f j v (install ram at f j v)
unfolding install
install_lem ram at f j v b apart small hj hv = record {
  pde =
      load32-store32_apart zeroed (f * 4096 + 4 * j) at v (omega arith)
      ∙ kept at apart
      ∙ load32-store32_self ram at (bit_or (f * 4096) 7)
          (omega (arith, bit_or_low 12 f 7 (omega arith)))
      ∙ bit_or_low 12 f 7 (omega arith);
  word = load32-store32_self zeroed (f * 4096 + 4 * j) v hv;
  cleared = λ k hk ne.
      load32-store32_apart zeroed (f * 4096 + 4 * j) (f * 4096 + 4 * k) v (omega arith)
      ∙ zero_at k hk;
  rest = λ a far off.
      load32-store32_apart zeroed (f * 4096 + 4 * j) a v (omega arith)
      ∙ kept a far
      ∙ load32-store32_apart ram at a (bit_or (f * 4096) 7) off;
  bytes =
      store32-IsRam zeroed (f * 4096 + 4 * j) v
        (zero_words-IsRam 1024 (f * 4096) linked (store32-IsRam ram at (bit_or (f * 4096) 7) b));
}
  where
    linked : Ram
    linked = store32 ram at (bit_or (f * 4096) 7)

    zeroed : Ram
    zeroed = zero_words 1024 (f * 4096) linked

    kept : (a : ℕ) → (a + 4 ≤ f * 4096) ⊎ (f * 4096 + 4096 ≤ a) → load32 zeroed a ≡ load32 linked a
    kept a far =
        load32_ext zeroed linked a
          λ x p q. zero_words-outside 1024 (f * 4096) linked x (omega arith)

    zero_at : (k : ℕ) → k < 1024 → load32 zeroed (f * 4096 + 4 * k) ≡ 0
    zero_at k hk =
        zero_load zeroed (f * 4096 + 4 * k)
          λ x p q. zero_words-inside 1024 (f * 4096) linked x (omega arith) (omega arith)
