-- ===== src/Memory/Boot/Tests.antt =====
-- src/memory.c: the boot code on memory maps of one entry.
use cindy_os.Base.{ℕ, ◌+◌, ◌%◌, ◌≡◌, refl, [], ◌∷◌, arith, ok, fault, Returns}
use cindy_os.Base.Ram.{Ram, load32, store32}
use cindy_os.Memory.{Memory, kmalloc, init_memory, init_pmm}
use cindy_os.Memory.Multiboot.{MmapEntry, MultibootInfo, load_entry}
use cindy_os.Memory.Boot.{Booted, init_pmm_lem}
use cindy_os.Memory.Boot.Map.{IsMap}
use cindy_os.Memory.Boot.Overrun.{init_pmm_overrun}
use cindy_os.Memory.Boot.Total.{init_memory_lem, usable_bytes}

-- One entry at 0x9000, usable RAM from 0 on, of the length given.
abbrev pub ram : ℕ → Ram
ram size x = store32 (store32 (store32 (λ a. 0) 0x9000 20) 0x900C size) 0x9014 1 x

abbrev pub entry : ℕ → MmapEntry
entry len = record {
  size = 20;
  base_addr_low = 0;
  base_addr_high = 0;
  length_low = len;
  length_high = 0;
  type = 1;
}

abbrev pub info : MultibootInfo
info = record {
  flags = 64;
  mem_lower = 0;
  mem_upper = 0;
  boot_device = 0;
  cmdline = 0;
  mods_count = 0;
  mods_addr = 0;
  num = 0;
  size = 0;
  addr = 0;
  shndx = 0;
  mmap_length = 24;
  mmap_addr = 0x9000;
}

abbrev memory : Memory
memory = record {
  free_mem_addr = 0x200000;
  total_memory = 0;
  allocated_memory = 0;
  mem_bitmap = [];
  max_frames = 0;
}

-- 64 MiB, and 2 GiB.
pub IsMap-small : IsMap (ram 0x4000000) 0x9000 (0x9000 + 24) (entry 0x4000000 ∷ [])
unfolding load_entry load32 store32
IsMap-small = (omega arith, refl, omega arith, omega arith)

IsMap-large : IsMap (ram 0x80000000) 0x9000 (0x9000 + 24) (entry 0x80000000 ∷ [])
unfolding load_entry load32 store32
IsMap-large = (omega arith, refl, omega arith, omega arith)

init_pmm_lem_example :
    Returns (Booted (entry 0x4000000 ∷ []) memory) (init_pmm 2 (ram 0x4000000) info memory)
init_pmm_lem_example =
    init_pmm_lem 2 (ram 0x4000000) info (entry 0x4000000 ∷ []) memory (omega arith) (omega arith)
      IsMap-small (omega arith) (ground arith, tt) ((λ u. omega arith), tt) (omega arith)

init_pmm_overrun_example : init_pmm 2 (ram 0x80000000) info memory ≡ fault
init_pmm_overrun_example =
    init_pmm_overrun 2 (ram 0x80000000) info [] [] (entry 0x80000000) memory (omega arith)
      (omega arith) IsMap-large (omega arith) tt refl (omega arith) (omega arith)

init_memory_lem_example :
    init_memory 2 (ram 0x4000000) info 0x2BADB002 memory
    ≡ ok (record (kmalloc 10 memory).1 {
      total_memory = (0 + usable_bytes (entry 0x4000000 ∷ [])) % 4294967296;
    })
init_memory_lem_example =
    init_memory_lem 2 (ram 0x4000000) info (entry 0x4000000 ∷ []) memory (omega arith) (omega arith)
      IsMap-small (omega arith) (omega arith)
