-- ===== src/Kernel/Memory.antt =====
-- src/kernel.c: the order of `init_memory`, `init_paging` and `init_pmm` at boot.
use cindy_os.Base.{
  ℕ, ◌+◌, ◌*◌, ◌/◌, ◌%◌, ◌≤◌, ◌<◌, ◌≡◌, ◌≢◌, ◌⊎◌, refl, ap, ◌∙◌, inl, inr, arith, ltb, leb, ◌&&◌,
  if◌then◌else◌, bit_and, List, length, ok, Returns, returns, Returns-bind, replicate,
  length-replicate, get_or-replicate, get_or-out, lt_or_le,
}
use cindy_os.Memory.{init_pmm, Memory, kmalloc, at_start, init_memory}
use cindy_os.Memory.Multiboot.{MmapEntry, load_info}
use cindy_os.Memory.Frames.{frame_limit, frame_bit, IsBitmap}
use cindy_os.Memory.Boot.{
  Fits, in_usable, Booted, kernel_frames, Aligned, init_pmm_lem, Booted-IsMemory,
}
use cindy_os.Memory.Boot.Map.{IsMap, IsMap-ext, load_info-ext}
use cindy_os.Memory.Boot.Total.{usable_bytes, init_memory_lem}
use cindy_os.Paging.{Machine, pde_at, get_pte, required_pdes}
use cindy_os.Paging.Tables.{IsRam, IsPaging}
use cindy_os.Paging.Init.Directory.{IdentityMap}
use cindy_os.Paging.Init.{
  init_paging_lem, IdentityMap-get_pte, IdentityMap-IsPaging, required_pdes-le,
}
use cindy_os.Kernel.{boot_memory}

-- How many times 4 MiB are mapped.
abbrev pub pdes : List MmapEntry → ℕ
pdes es = required_pdes (usable_bytes es % 4294967296)

-- The machine after the three calls: the tables are well-formed; the pages below `pdes` times 4 MiB
-- are mapped to themselves and no other page is; a frame is free exactly if a usable region holds it
-- and it lies behind the tables, which end at page 514 + `pdes`.
pub record MemoryBooted (es : List MmapEntry) (s' : Machine) : Type 0 where
  pub paging : IsPaging s'
  pub mapped :
      (v : ℕ)
      → v < 4294967296
      → ((v < pdes es * 4194304) × (get_pte v s' ≡ v / 4096 * 4096 + 7))
        ⊎ ((pdes es * 4194304 ≤ v) × (get_pte v s' ≡ 0))
  pub frames :
      (g : ℕ)
      → g < frame_limit
      → frame_bit s'.memory.mem_bitmap g
        ≡ (if in_usable es g && (ltb 0 g && leb (514 + pdes es) g) then 0 else 1)
  pub switched : s'.cr3 ≡ s'.page_direc

-- What the code has before: the C start-up state, a well-formed memory map whose usable regions are
-- page-aligned and fit the bitmap, and that, like GRUB's structure at `mbd`, which names it, is not
-- where the tables will be.
pub record IsBootable (fuel mbd : ℕ) (es : List MmapEntry) (s : Machine) : Type 0 where
  pub fresh : s.memory ≡ at_start
  pub bytes : IsRam s.ram
  pub flag : bit_and (load_info s.ram mbd).flags 64 ≢ 0
  pub small : (load_info s.ram mbd).mmap_addr + (load_info s.ram mbd).mmap_length < 4294967296
  pub map :
      IsMap s.ram
        (load_info s.ram mbd).mmap_addr
        ((load_info s.ram mbd).mmap_addr + (load_info s.ram mbd).mmap_length)
        es
  pub enough : length es < fuel
  pub fits : Fits es
  pub aligned : Aligned es
  pub info_apart : (mbd + 52 ≤ 513 * 4096) ⊎ ((514 + pdes es) * 4096 ≤ mbd)
  pub apart :
      ((load_info s.ram mbd).mmap_addr + (load_info s.ram mbd).mmap_length + 24 ≤ 513 * 4096)
      ⊎ ((514 + pdes es) * 4096 ≤ (load_info s.ram mbd).mmap_addr)

-- The allocator's state between `init_memory` and `init_paging`.
abbrev counted : List MmapEntry → Memory
counted es = record {
  free_mem_addr = 0x20000C;
  total_memory = usable_bytes es % 4294967296;
  allocated_memory = 12;
  mem_bitmap = replicate 8192 0;
  max_frames = 0;
}

pub no_bits : IsBitmap (replicate 8192 0)
no_bits = record {
  size = length-replicate 8192 0;
  words = λ i. elim (lt_or_le i 8192) [
    | inl lt ↦ omega (arith, get_or-replicate {A = ℕ} 8192 i 0 0 lt)
    | inr ge ↦ omega (
      arith,
      get_or-out {A = ℕ} (replicate 8192 0) i 0 (omega (arith, length-replicate {A = ℕ} 8192 0)),
    )
  ];
}

module _ {fuel mbd : ℕ} {es : List MmapEntry} {s : Machine} (b : IsBootable fuel mbd es s) where
  init_memory-counted :
      init_memory fuel s.ram (load_info s.ram mbd) 0x2BADB002 s.memory ≡ ok (counted es)
  unfolding kmalloc at_start
  init_memory-counted = rw b.fresh (
      init_memory_lem fuel s.ram (load_info s.ram mbd) es at_start b.flag b.small b.map b.enough
        (omega arith)
      ∙ ap (λ n. ok (record (counted es) { total_memory = n % 4294967296 })) (omega arith))

  -- The map is still there after the tables have been written.
  IdentityMap-IsMap :
      {s₀ paged : Machine}
      → s₀.ram ≡ s.ram
      → IdentityMap 513 (pdes es) s₀ paged
      → IsMap paged.ram
          (load_info s.ram mbd).mmap_addr
          ((load_info s.ram mbd).mmap_addr + (load_info s.ram mbd).mmap_length)
          es
  IdentityMap-IsMap {s₀} {paged} same i =
      IsMap-ext s.ram paged.ram _ _ es b.map
        (λ x lo hi. i.outside x (omega (arith, b.apart)) ∙ ap (λ m. m x) same)

  info_kept :
      {s₀ paged : Machine}
      → s₀.ram ≡ s.ram
      → IdentityMap 513 (pdes es) s₀ paged
      → load_info paged.ram mbd ≡ load_info s.ram mbd
  info_kept {s₀} {paged} same i =
      load_info-ext s.ram paged.ram mbd
        (λ x lo hi. i.outside x (omega (arith, b.info_apart)) ∙ ap (λ m. m x) same)

  init_pmm-Booted :
      {paged : Machine}
      → IdentityMap 513 (pdes es) (record s { memory = counted es }) paged
      → Returns
          (Booted es paged.memory)
          (init_pmm fuel paged.ram (load_info paged.ram mbd) paged.memory)
  init_pmm-Booted {paged} i = rw (info_kept refl i) (
      init_pmm_lem fuel paged.ram (load_info s.ram mbd) es paged.memory b.flag b.small
        (IdentityMap-IsMap refl i) b.enough b.fits b.aligned
        (omega (arith, i.next, required_pdes-le (usable_bytes es % 4294967296))))

  booted :
      {s₀ paged : Machine} {memory : Memory}
      → IdentityMap 513 (pdes es) s₀ paged
      → s₀.memory.max_frames ≡ 0
      → paged.cr3 ≡ paged.page_direc
      → Booted es paged.memory memory
      → MemoryBooted es (record paged { memory = memory })
  unfolding get_pte pde_at
  booted {s₀} {paged} {memory} i max cr3 m = record {
    paging =
        IdentityMap-IsPaging i (omega (arith, few))
          (Booted-IsMemory m b.fits (omega (arith, i.same_max))
            (omega (arith, m.same_bump, i.next, few)) (omega (arith, m.same_count, i.counted)))
          (λ g lo hi. m.bits g (omega (arith, few)) ∙ ground (arith, kernel, hi));
    mapped = λ v h. IdentityMap-get_pte v i (omega (arith, few)) h;
    frames = λ g h. rw (← kernel) (m.bits g h);
    switched = cr3;
  }
    where
      few : pdes es ≤ 1024
      few = required_pdes-le (usable_bytes es % 4294967296)

      kernel : kernel_frames paged.memory ≡ 514 + pdes es
      kernel = omega (arith, i.next, few)

-- From the C start-up state, with a well-formed memory map whose usable regions are page-aligned and
-- fit the bitmap, where neither the map nor GRUB's structure lies where the tables will be,
-- `init_memory`, `init_paging` and `init_pmm` return. They leave page tables and an allocator that
-- satisfy the invariants of both. The addresses below `pdes` times 4 MiB are mapped to themselves and no
-- others are mapped; the free frames are those that lie in a usable region and behind the kernel, the
-- directory and the tables.
pub boot_memory_lem :
    (fuel mbd : ℕ) (es : List MmapEntry) (s : Machine)
    → IsBootable fuel mbd es s
    → Returns (MemoryBooted es) (boot_memory fuel mbd 0x2BADB002 s)
unfolding boot_memory
boot_memory_lem fuel mbd es s b = rw (init_memory-counted b) (
    Returns-bind
      (init_paging_lem (record s { memory = counted es }) no_bits b.bytes
        (omega (arith, required_pdes-le (usable_bytes es % 4294967296))))
      λ paged (i, cr3, cr0).
        Returns-bind (init_pmm-Booted b i) λ memory m. returns (booted b i refl cr3 m))
