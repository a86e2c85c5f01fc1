-- ===== src/Paging/Init.antt =====
-- src/paging.c: `init_paging` builds an identity map, in the pages just above the bump pointer.
pub mod Table
pub mod Directory
use cindy_os.Base.{
  ℕ, zero, suc, ◌+◌, ◌-◌, ◌*◌, ◌/◌, ◌%◌, ◌^◌, ◌≤◌, ◌<◌, ◌≡◌, ◌≢◌, ◌⊎◌, refl, sym, ap, ◌∙◌, inl, inr,
  arith, bit_or, lt_or_le, Run, ok, ◌>>=◌, Returns, returns, Returns-bind, Returns-mono, subst,
  subst₂,
}
use cindy_os.Base.Ram.{
  Ram, load32, store32, store32_outside, load32-store32_self, load32_ext, zero_load,
}
use cindy_os.Base.Bits.{bit, bit_or_low, bit-or, bit-pow_self, bit-le-one}
use native.Mathlib.Decide.{ℕ_discrete}
use cindy_os.Memory.{Memory, kmalloc_a}
use cindy_os.Memory.Frames.{IsBitmap, frame_bit}
use cindy_os.Memory.Alloc.{IsMemory}
use cindy_os.Memory.Bump.{Raised, kmalloc_a-Raised}
use cindy_os.Paging.{
  Machine, pde_at, get_pte, zero_words, fill_table, map_directory, required_pdes, init_paging,
}
use cindy_os.Paging.Tables.{
  IsPaging, get_pte-present, get_pte-absent, IsRam, store32-IsRam, zero_words-outside,
  zero_words-inside, zero_words-IsRam,
}
use cindy_os.Paging.Init.Directory.{
  IdentityMap, map_directory_lem, IdentityMap-cr, IdentityMap-zero,
}
use cindy_os.Paging.Init.Table.{fill_table-outside, fill_table-IsRam, fill_table-entry}

pub required_pdes-le : (total : ℕ) → required_pdes total ≤ 1024
unfolding required_pdes
required_pdes-le total = ground arith

-- The page at the bump pointer, or the next one.
abbrev pub next_page : ℕ → ℕ
next_page a = (a + 4095) / 4096

-- While the directory and the tables end inside the first GiB, `init_paging` returns, with the
-- identity map in the directory that `cr3` names, and with paging enabled in `cr0`.
pub init_paging_lem :
    (s : Machine)
    → IsBitmap s.memory.mem_bitmap
    → IsRam s.ram
    → (next_page s.memory.free_mem_addr + 2 + required_pdes s.memory.total_memory) * 4096
      ≤ 1073741824
    → Returns
        (λ s'.
          IdentityMap (next_page s.memory.free_mem_addr) (required_pdes s.memory.total_memory) s s'
          × (s'.cr3 ≡ s'.page_direc)
          × (bit s'.cr0 31 ≡ 1))
        (init_paging s)
unfolding init_paging
init_paging_lem s b bytes room =
    Returns-bind (kmalloc_a-Raised 4096 b (omega arith)) λ (direc, memory) r.
      let d_at : direc / 4096 ≡ next_page s.memory.free_mem_addr =
        omega (arith, r.aligned, r.above, r.near) in
      let same : required_pdes memory.total_memory ≡ required_pdes s.memory.total_memory =
        ap required_pdes r.same_total in
      Returns-bind
        (map_directory_lem (required_pdes memory.total_memory) 0 (direc / 4096)
          (IdentityMap-zero bytes r) (omega (arith, required_pdes-le memory.total_memory))
          (omega (arith, d_at, same)))
        λ mapped i. returns (
          subst₂
              (λ d n.
                IdentityMap d n s
                  (record mapped { cr3 = mapped.page_direc; cr0 = bit_or mapped.cr0 0x80000000 }))
              d_at (omega (arith, same))
              (IdentityMap-cr mapped.page_direc (bit_or mapped.cr0 0x80000000) i),
          refl,
          omega (arith, bit-or 31 mapped.cr0 (2 ^ 31), bit-pow_self 31, bit-le-one mapped.cr0 31),
        )

-- In the identity map a page of the first `n` times 4 MiB is present, writable and open to user mode,
-- at its own address, and no other page is mapped.
pub IdentityMap-get_pte :
    {d n : ℕ} {s s' : Machine} (v : ℕ)
    → IdentityMap d n s s'
    → (d + 1 + n) * 4096 ≤ 1073741824
    → v < 4294967296
    → ((v < n * 4194304) × (get_pte v s' ≡ v / 4096 * 4096 + 7))
      ⊎ ((n * 4194304 ≤ v) × (get_pte v s' ≡ 0))
IdentityMap-get_pte {d} {n} {s} {s'} v i room h = elim (lt_or_le (v / 4194304) n) [
  | inl lt ↦
      let table = i.tables (v / 4194304) lt in
      inl (
        omega arith,
        get_pte-present v s' i.bytes (omega (arith, table))
            ∙ (ap (load32 s'.ram) (omega (arith, table))
                ∙ (i.entries (v / 4194304) (v / 4096 % 1024) lt (omega arith) ∙ omega arith)),
      )
  | inr ge ↦
      inr (
        omega arith,
        get_pte-absent v s' (omega (arith, i.no_tables (v / 4194304) ge (omega arith))),
      )
]

-- With an allocator that keeps the pages of the directory and the tables, the tables are well-formed.
pub IdentityMap-IsPaging :
    {d n : ℕ} {s s' : Machine} {memory : Memory}
    → IdentityMap d n s s'
    → (d + 1 + n) * 4096 ≤ 1073741824
    → IsMemory memory
    → ((g : ℕ) → d ≤ g → g ≤ d + n → frame_bit memory.mem_bitmap g ≡ 1)
    → IsPaging (record s' { memory = memory })
unfolding pde_at
IdentityMap-IsPaging {d} {n} {s} {s'} {memory} i room ok_memory used = record {
  memory = ok_memory;
  bytes = i.bytes;
  dir = d;
  dir_at = i.direc;
  dir_in = omega arith;
  dir_used = used d (omega arith) (omega arith);
  table_in = λ k h p. omega (arith, at k h p, below k h p);
  table_used = λ k h p.
      ap (frame_bit memory.mem_bitmap) (at k h p)
      ∙ used (d + 1 + k) (omega arith) (omega (arith, below k h p));
  table_ne_dir = λ k h p e. omega (arith, at k h p);
  tables_ne = λ j k hj hk p q ne e. omega (arith, at j hj p, at k hk q, ne);
}
  where
    t : Machine
    t = record s' { memory = memory }

    below : (k : ℕ) → k < 1024 → pde_at t k % 2 ≡ 1 → k < n
    below k h p = elim (lt_or_le k n) [
      | inl lt ↦ lt
      | inr ge ↦ let none : pde_at t k ≡ 0 = i.no_tables k ge h in absurd (omega arith)
    ]

    at : (k : ℕ) → k < 1024 → pde_at t k % 2 ≡ 1 → pde_at t k / 4096 ≡ d + 1 + k
    at k h p =
        let here : pde_at t k ≡ (d + 1 + k) * 4096 + 7 = i.tables k (below k h p) in omega arith
