-- ===== src/Paging/Tables.antt =====
-- src/paging.c: where the directory and the tables lie, and which words a store can change.
use cindy_os.Base.{
  ℕ, zero, suc, ◌+◌, ◌*◌, ◌/◌, ◌%◌, ◌≤◌, ◌<◌, ◌≡◌, ◌≢◌, ◌⊎◌, refl, ap, ◌∙◌, inl, inr, arith,
  bit_and, lt_or_le,
}
use cindy_os.Base.Bits.{bit_and_mask, page_mask}
use cindy_os.Base.Ram.{Ram, load32, store32, store32_outside}
use native.Mathlib.Decide.{ℕ_discrete}
use cindy_os.Memory.Frames.{frame_limit, frame_bit}
use cindy_os.Memory.Alloc.{IsMemory}
use cindy_os.Paging.{Machine, pd_index, pt_index, pde_at, get_pte, zero_words}

-- Every byte of the memory is a byte.
abbrev pub IsRam : Ram → Type 0
IsRam ram = (a : ℕ) → ram a < 256

pub load32-lt : (ram : Ram) (a : ℕ) → IsRam ram → load32 ram a < 4294967296
unfolding load32
load32-lt ram a b = omega (arith, b a, b (a + 1), b (a + 2), b (a + 3))

pub store32-IsRam : (ram : Ram) (a v : ℕ) → IsRam ram → IsRam (store32 ram a v)
unfolding store32
store32-IsRam ram a v b = λ x. ground (arith, b x)

pub pt_index_lem : (v : ℕ) → pt_index v ≡ v / 4096 % 1024
unfolding pt_index
pt_index_lem v = bit_and_mask 10 (v / 4096)

pub pd_index_lem : (v : ℕ) → pd_index v ≡ v / 4194304
unfolding pd_index
pd_index_lem v = refl

pub present_bit : (e : ℕ) → bit_and e 1 ≡ e % 2
present_bit e = bit_and_mask 1 e

-- `get_pte` in arithmetic: the entry of the page's table, or 0 with no table.
pub get_pte-absent : (v : ℕ) (s : Machine) → pde_at s (v / 4194304) % 2 ≡ 0 → get_pte v s ≡ 0
unfolding get_pte pd_index
get_pte-absent v s h = ground (arith, present_bit (pde_at s (v / 4194304)))

pub get_pte-present :
    (v : ℕ) (s : Machine)
    → IsRam s.ram
    → pde_at s (v / 4194304) % 2 ≡ 1
    → get_pte v s ≡ load32 s.ram (pde_at s (v / 4194304) / 4096 * 4096 + 4 * (v / 4096 % 1024))
unfolding get_pte pd_index pde_at
get_pte-present v s b h =
    rw
      (
        ← pt_index_lem v,
        ← page_mask (pde_at s (v / 4194304)) (load32-lt s.ram (s.page_direc + 4 * (v / 4194304)) b),
      )
      (ground (arith, present_bit (pde_at s (v / 4194304))))

-- The loop that clears a table writes zeros there and nothing elsewhere.
pub zero_words-outside :
    (count a : ℕ) (ram : Ram) (x : ℕ)
    → (x < a) ⊎ (a + 4 * count ≤ x)
    → zero_words count a ram x ≡ ram x
unfolding zero_words
zero_words-outside zero a ram x h = refl
zero_words-outside (suc n) a ram x h =
    zero_words-outside n (a + 4) (store32 ram a 0) x (omega arith)
    ∙ store32_outside ram a 0 x (omega arith)

pub zero_words-inside :
    (count a : ℕ) (ram : Ram) (x : ℕ) → a ≤ x → x < a + 4 * count → zero_words count a ram x ≡ 0
unfolding zero_words store32
zero_words-inside zero a ram x h k = absurd (omega arith)
zero_words-inside (suc n) a ram x h k = elim (lt_or_le x (a + 4)) [
  | inl lt ↦ zero_words-outside n (a + 4) (store32 ram a 0) x (inl lt) ∙ ground arith
  | inr ge ↦ zero_words-inside n (a + 4) (store32 ram a 0) x ge (omega arith)
]

pub zero_words-IsRam : (count a : ℕ) (ram : Ram) → IsRam ram → IsRam (zero_words count a ram)
unfolding zero_words
zero_words-IsRam zero a ram b = b
zero_words-IsRam (suc n) a ram b =
    zero_words-IsRam n (a + 4) (store32 ram a 0) (store32-IsRam ram a 0 b)

-- The directory lies in a frame in use; each present entry names a table in a frame of its own,
-- in use as well and other than the directory's.
pub record IsPaging (s : Machine) : Type 0 where
  pub memory : IsMemory s.memory
  pub bytes : IsRam s.ram
  pub dir : ℕ
  pub dir_at : s.page_direc ≡ dir * 4096
  pub dir_in : dir < frame_limit
  pub dir_used : frame_bit s.memory.mem_bitmap dir ≡ 1
  pub table_in : (i : ℕ) → i < 1024 → pde_at s i % 2 ≡ 1 → pde_at s i / 4096 < frame_limit
  pub table_used :
      (i : ℕ)
      → i < 1024
      → pde_at s i % 2 ≡ 1
      → frame_bit s.memory.mem_bitmap (pde_at s i / 4096) ≡ 1
  pub table_ne_dir : (i : ℕ) → i < 1024 → pde_at s i % 2 ≡ 1 → pde_at s i / 4096 ≢ dir
  pub tables_ne :
      (i j : ℕ)
      → i < 1024
      → j < 1024
      → pde_at s i % 2 ≡ 1
      → pde_at s j % 2 ≡ 1
      → i ≢ j
      → pde_at s i / 4096 ≢ pde_at s j / 4096

-- Two words of page tables that are not the same word do not overlap.
pub word_apart :
    (t u j k : ℕ)
    → j < 1024
    → k < 1024
    → (t ≡ u → j ≢ k)
    → (t * 4096 + 4 * j + 4 ≤ u * 4096 + 4 * k) ⊎ (u * 4096 + 4 * k + 4 ≤ t * 4096 + 4 * j)
word_apart t u j k hj hk ne = elim (lt_or_le (t * 4096 + 4 * j) (u * 4096 + 4 * k)) [
  | inl lt ↦ inl (omega arith)
  | inr ge ↦ elim (ℕ_discrete t u) [
    | yes e ↦ inr (omega (arith, ne e))
    | no other ↦ inr (omega arith)
  ]
]

-- Pages that differ have different words, in one table or in two.
pub pages_apart :
    (s : Machine) (v w : ℕ)
    → IsPaging s
    → v < 4294967296
    → w < 4294967296
    → v / 4096 ≢ w / 4096
    → pde_at s (v / 4194304) % 2 ≡ 1
    → pde_at s (w / 4194304) % 2 ≡ 1
    → pde_at s (v / 4194304) / 4096 ≡ pde_at s (w / 4194304) / 4096
    → v / 4096 % 1024 ≢ w / 4096 % 1024
pages_apart s v w inv lv lw ne pv pw same e = elim (ℕ_discrete (v / 4194304) (w / 4194304)) [
  | yes one ↦ ne (omega arith)
  | no two ↦ inv.tables_ne (v / 4194304) (w / 4194304) (omega arith) (omega arith) pv pw two same
]

-- A store that leaves the directory alone keeps the invariant.
pub IsPaging-ram :
    {s : Machine} (ram : Ram)
    → IsPaging s
    → IsRam ram
    → ((i : ℕ) → i < 1024 → pde_at (record s { ram = ram }) i ≡ pde_at s i)
    → IsPaging (record s { ram = ram })
IsPaging-ram {s} ram inv bytes same = record {
  memory = inv.memory;
  bytes = bytes;
  dir = inv.dir;
  dir_at = inv.dir_at;
  dir_in = inv.dir_in;
  dir_used = inv.dir_used;
  table_in = λ i h p. omega (arith, same i h, inv.table_in i h (before i h p));
  table_used = λ i h p.
      ap (λ n. frame_bit s.memory.mem_bitmap (n / 4096)) (same i h)
      ∙ inv.table_used i h (before i h p);
  table_ne_dir = λ i h p. omega (arith, same i h, inv.table_ne_dir i h (before i h p));
  tables_ne = λ i j h k p q ne.
      omega (arith, same i h, same j k, inv.tables_ne i j h k (before i h p) (before j k q) ne);
}
  where
    before : (i : ℕ) → i < 1024 → pde_at (record s { ram = ram }) i % 2 ≡ 1 → pde_at s i % 2 ≡ 1
    before i h p = omega (arith, same i h)

pub pde-lt : (s : Machine) → IsRam s.ram → (i : ℕ) → pde_at s i < 4294967296
unfolding pde_at
pde-lt s b i = load32-lt s.ram (s.page_direc + 4 * i) b
