-- ===== src/Paging/Init/Directory.antt =====
-- src/paging.c: the loop of `init_paging` over the tables, and the identity map that it builds.
use cindy_os.Base.{
  ℕ, zero, suc, ◌+◌, ◌*◌, ◌/◌, ◌≤◌, ◌<◌, ◌≡◌, ◌≢◌, ◌⊎◌, ap, ◌∙◌, inl, inr, arith, bit_or, Returns,
  returns, Returns-bind, subst,
}
use cindy_os.Base.Ram.{load32, store32, store32_outside, load32-store32_self, load32_ext, zero_load}
use cindy_os.Base.Bits.{bit_or_low}
use native.Mathlib.Decide.{ℕ_discrete}
use cindy_os.Memory.{Memory}
use cindy_os.Memory.Frames.{IsBitmap}
use cindy_os.Memory.Bump.{Raised, kmalloc_a-Raised}
use cindy_os.Paging.{Machine, pde_at, zero_words, fill_table, map_directory}
use cindy_os.Paging.Tables.{
  IsRam, store32-IsRam, zero_words-outside, zero_words-inside, zero_words-IsRam,
}
use cindy_os.Paging.Init.Table.{fill_table-outside, fill_table-IsRam, fill_table-entry}

-- The directory is page `d`, and its first `n` tables, for the first `n` times 4 MiB, are the pages
-- behind it; each maps its pages to themselves, and there is no other table.
pub record IdentityMap (d n : ℕ) (s s' : Machine) : Type 0 where
  pub direc : s'.page_direc ≡ d * 4096
  pub next : s'.memory.free_mem_addr ≡ (d + 1 + n) * 4096
  pub bitmap : IsBitmap s'.memory.mem_bitmap
  pub counted : s'.memory.allocated_memory < 4294967296
  pub bytes : IsRam s'.ram
  pub tables : (i : ℕ) → i < n → pde_at s' i ≡ (d + 1 + i) * 4096 + 7
  pub no_tables : (i : ℕ) → n ≤ i → i < 1024 → pde_at s' i ≡ 0
  pub entries :
      (i j : ℕ)
      → i < n
      → j < 1024
      → load32 s'.ram ((d + 1 + i) * 4096 + 4 * j) ≡ (i * 1024 + j) * 4096 + 7
  pub outside : (x : ℕ) → (x < d * 4096) ⊎ ((d + 1 + n) * 4096 ≤ x) → s'.ram x ≡ s.ram x
  pub same_max : s'.memory.max_frames ≡ s.memory.max_frames
  pub same_total : s'.memory.total_memory ≡ s.memory.total_memory

-- One table more.
add_table : Machine → ℕ → ℕ → Memory → Machine
add_table s t table memory = record s {
  memory = memory;
  ram = store32 (fill_table 1024 t 0 table s.ram) (s.page_direc + 4 * t) (bit_or table 7);
}

module _ {d n : ℕ} {s s' : Machine} {table : ℕ} {memory : Memory} (i : IdentityMap d n s s')
    (small : n < 1024) (room : (d + 2 + n) * 4096 ≤ 1073741824)
    (r : Raised 4096 s'.memory table memory) where
  table_at : table ≡ (d + 1 + n) * 4096
  table_at = omega (arith, i.next, r.aligned, r.above, r.near)

  table_entry : bit_or table 7 ≡ (d + 1 + n) * 4096 + 7
  table_entry = ap (λ t. bit_or t 7) table_at ∙ bit_or_low 12 (d + 1 + n) 7 (omega arith)

  kept :
      (x : ℕ)
      → (x < (d + 1 + n) * 4096) ⊎ ((d + 2 + n) * 4096 ≤ x)
      → (x < d * 4096 + 4 * n) ⊎ (d * 4096 + 4 * n + 4 ≤ x)
      → (add_table s' n table memory).ram x ≡ s'.ram x
  unfolding add_table
  kept x o w =
      store32_outside _ (s'.page_direc + 4 * n) _ x (omega (arith, i.direc, w))
      ∙ fill_table-outside 1024 n 0 table s'.ram x (omega (arith, table_at, o))

  -- A word of the directory other than the new one.
  pde_kept : (j : ℕ) → j < 1024 → j ≢ n → pde_at (add_table s' n table memory) j ≡ pde_at s' j
  unfolding pde_at add_table
  pde_kept j h ne =
      load32_ext _ s'.ram (s'.page_direc + 4 * j)
        (λ x lo hi. kept x (inl (omega (arith, i.direc))) (omega (arith, i.direc, ne)))

  pde_new : pde_at (add_table s' n table memory) n ≡ (d + 1 + n) * 4096 + 7
  unfolding pde_at add_table
  pde_new =
      load32-store32_self _ (s'.page_direc + 4 * n) _ (omega (arith, table_entry)) ∙ table_entry

  entry_new :
      (j : ℕ)
      → j < 1024
      → load32 (add_table s' n table memory).ram ((d + 1 + n) * 4096 + 4 * j)
        ≡ (n * 1024 + j) * 4096 + 7
  unfolding add_table
  entry_new j h =
      load32_ext _ (fill_table 1024 n 0 table s'.ram) ((d + 1 + n) * 4096 + 4 * j)
        (λ x lo hi. store32_outside _ (s'.page_direc + 4 * n) _ x (omega (arith, i.direc)))
      ∙ (ap (load32 _) (omega (arith, table_at))
          ∙ fill_table-entry 1024 n 0 table s'.ram j small (omega arith) (omega arith)
              (omega arith))

  entry_kept :
      (k j : ℕ)
      → k < n
      → j < 1024
      → load32 (add_table s' n table memory).ram ((d + 1 + k) * 4096 + 4 * j)
        ≡ (k * 1024 + j) * 4096 + 7
  entry_kept k j lt h =
      load32_ext _ s'.ram ((d + 1 + k) * 4096 + 4 * j)
        (λ x lo hi. kept x (inl (omega arith)) (inr (omega arith)))
      ∙ i.entries k j lt h

  IdentityMap-suc : IdentityMap d (suc n) s (add_table s' n table memory)
  unfolding add_table
  IdentityMap-suc = record {
    direc = i.direc;
    next = omega (arith, r.next, table_at);
    bitmap = r.bitmap;
    counted = r.counted;
    bytes = store32-IsRam _ _ _ (fill_table-IsRam 1024 n 0 table s'.ram i.bytes);
    tables = λ k lt. elim (ℕ_discrete k n) [
      | yes e ↦ rw e pde_new
      | no ne ↦ pde_kept k (omega arith) ne ∙ i.tables k (omega (arith, ne))
    ];
    no_tables = λ k le h. pde_kept k h (omega arith) ∙ i.no_tables k (omega arith) h;
    entries = λ k j lt h. elim (ℕ_discrete k n) [
      | yes e ↦ rw e (entry_new j h)
      | no ne ↦ entry_kept k j (omega (arith, ne)) h
    ];
    outside =
        λ x o. kept x (omega (arith, o)) (omega (arith, o, small)) ∙ i.outside x (omega (arith, o));
    same_max = r.same_max ∙ i.same_max;
    same_total = r.same_total ∙ i.same_total;
  }

-- The loop from table `n` on.
pub map_directory_lem :
    (count n d : ℕ) {s s' : Machine}
    → IdentityMap d n s s'
    → n + count ≤ 1024
    → (d + 2 + n + count) * 4096 ≤ 1073741824
    → Returns (IdentityMap d (n + count) s) (map_directory count n s')
unfolding map_directory add_table
map_directory_lem zero n d {s} {s'} i small room =
    returns (subst (λ k. IdentityMap d k s s') (omega arith) i)
map_directory_lem (suc count) n d {s} {s'} i small room =
    Returns-bind (kmalloc_a-Raised 4096 i.bitmap (omega (arith, i.next))) λ (table, memory) r.
      subst
        (λ k.
          Returns (IdentityMap d k s) (map_directory count (n + 1) (add_table s' n table memory)))
        (omega arith)
        (map_directory_lem count (n + 1) d
          (subst (λ k. IdentityMap d k s (add_table s' n table memory)) (omega arith)
            (IdentityMap-suc i (omega arith) (omega arith) r))
          (omega arith) (omega arith))

-- Loading the control registers changes no table.
pub IdentityMap-cr :
    {d n : ℕ} {s s' : Machine} (cr3 cr0 : ℕ)
    → IdentityMap d n s s'
    → IdentityMap d n s (record s' { cr3 = cr3; cr0 = cr0 })
unfolding pde_at
IdentityMap-cr cr3 cr0 i = record {
  direc = i.direc;
  next = i.next;
  bitmap = i.bitmap;
  counted = i.counted;
  bytes = i.bytes;
  tables = i.tables;
  no_tables = i.no_tables;
  entries = i.entries;
  outside = i.outside;
  same_max = i.same_max;
  same_total = i.same_total;
}

-- The directory, still empty, in the page that `kmalloc_a` returned.
pub IdentityMap-zero :
    {s : Machine} {direc : ℕ} {memory : Memory}
    → IsRam s.ram
    → Raised 4096 s.memory direc memory
    → IdentityMap
        (direc / 4096)
        0
        s
        (record s { memory = memory; page_direc = direc; ram = zero_words 1024 direc s.ram })
unfolding pde_at
IdentityMap-zero {s} {direc} {memory} bytes r = record {
  direc = omega (arith, r.aligned);
  next = omega (arith, r.next, r.aligned);
  bitmap = r.bitmap;
  counted = r.counted;
  bytes = zero_words-IsRam 1024 direc s.ram bytes;
  tables = λ i lt. absurd (omega arith);
  no_tables = λ i le h.
      zero_load _ (direc + 4 * i)
        (λ x lo hi. zero_words-inside 1024 direc s.ram x (omega arith) (omega arith));
  entries = λ i j lt h. absurd (omega arith);
  outside = λ x o. zero_words-outside 1024 direc s.ram x (omega (arith, r.aligned, o));
  same_max = r.same_max;
  same_total = r.same_total;
}
