-- ===== src/Memory/Boot/Total.antt =====
-- src/memory.c: `init_memory` adds up the usable RAM.
use cindy_os.Base.{
  ℕ, ◌+◌, ◌%◌, ◌<◌, ◌≡◌, ◌≢◌, List, [], ◌∷◌, arith, ◌==◌, if◌then◌else◌, bit_and, add32, ok, length,
  ne→==,
}
use cindy_os.Base.Ram.{Ram}
use cindy_os.Memory.{Memory, kmalloc, count_region, init_memory}
use cindy_os.Memory.Multiboot.{MmapEntry, MultibootInfo}
use cindy_os.Memory.Boot.Map.{IsMap, fold_run, walk-fold_run}

-- The low words of the lengths of the usable regions, added up as numbers.
unfoldable pub usable_bytes : List MmapEntry → ℕ
usable_bytes [] = 0
usable_bytes (e ∷ es) = (if e.type == 1 then e.length_low else 0) + usable_bytes es

count_regions :
    (es : List MmapEntry) (m : Memory)
    → m.total_memory < 4294967296
    → fold_run count_region es m
      ≡ ok (record m { total_memory = (m.total_memory + usable_bytes es) % 4294967296 })
unfolding fold_run count_region usable_bytes
count_regions [] m h = ground arith
count_regions (e ∷ es) m h = ground (
  arith,
  count_regions es m h,
  count_regions es (record m { total_memory = add32 m.total_memory e.length_low }),
)

-- With the right magic number and a memory map, `init_memory` adds the lengths of the regions of
-- type 1 modulo 2 ^ 32, on top of its test allocation of 10 bytes.
pub init_memory_lem :
    (fuel : ℕ) (ram : Ram) (mbd : MultibootInfo) (es : List MmapEntry) (m : Memory)
    → bit_and mbd.flags 64 ≢ 0
    → mbd.mmap_addr + mbd.mmap_length < 4294967296
    → IsMap ram mbd.mmap_addr (mbd.mmap_addr + mbd.mmap_length) es
    → length es < fuel
    → m.total_memory < 4294967296
    → init_memory fuel ram mbd 0x2BADB002 m
      ≡ ok (record (kmalloc 10 m).1 {
        total_memory = (m.total_memory + usable_bytes es) % 4294967296;
      })
unfolding init_memory kmalloc
init_memory_lem fuel ram mbd es m flag small map enough h =
    rw
      (
        ne→== (bit_and mbd.flags 64) 0 flag,
        stop,
        walk-fold_run fuel ram _ _ count_region es map enough,
      )
      (count_regions es (kmalloc 10 m).1 h)
  where
    stop : add32 mbd.mmap_addr mbd.mmap_length ≡ mbd.mmap_addr + mbd.mmap_length
    stop = omega arith
