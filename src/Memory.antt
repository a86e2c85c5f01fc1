-- ===== src/Memory.antt =====
-- src/memory.c: the bump allocator and the bitmap of physical frames. `Bitmap` is the array
-- `mem_bitmap`; a write past its 8192 words is `fault`. Printing is not part of this state.
pub mod Bitmap
pub mod Multiboot
pub mod Frames
pub mod Alloc
pub mod Bump
pub mod Boot
pub mod Tests
use cindy_os.Base.{
  ℕ, zero, suc, ◌+◌, ◌-◌, ◌*◌, ◌/◌, ◌%◌, bit_and, Bool, true, false, Option, none, some, List, [],
  ◌∷◌, ltb, leb, ◌==◌, ◌!=◌, if◌then◌else◌, add32, sub32, u32, Run, ok, ◌>>=◌, replicate,
}
use cindy_os.Base.Ram.{Ram}
use Bitmap.{pmm_set_bit, pmm_clear_bit, full_word, find_zero}
use Multiboot.{MmapEntry, MultibootInfo, walk}

-- The globals of memory.c.
pub record Memory : Type 0 where
  pub free_mem_addr : ℕ
  pub total_memory : ℕ
  pub allocated_memory : ℕ
  pub mem_bitmap : List ℕ
  pub max_frames : ℕ

abbrev pub bitmap_words : ℕ
bitmap_words = 8192

-- Their values when the kernel starts.
unfoldable pub at_start : Memory
at_start = record {
  free_mem_addr = 0x200000;
  total_memory = 0;
  allocated_memory = 0;
  mem_bitmap = replicate bitmap_words 0;
  max_frames = 0;
}

unfoldable pub kmalloc : ℕ → Memory → ℕ × Memory
kmalloc size m =
    let rounded = if size % 4 != 0 then add32 size (4 - size % 4) else size in
    (
      m.free_mem_addr,
      record m {
        free_mem_addr = add32 m.free_mem_addr rounded;
        allocated_memory = add32 m.allocated_memory rounded;
      },
    )

-- The loop `for (i = first; ...; i++) pmm_set_bit(i)` over `count` frames.
pub set_frames : ℕ → ℕ → List ℕ → Run (List ℕ)
set_frames zero first bitmap = ok bitmap
set_frames (suc count) first bitmap = do
  bitmap' ← pmm_set_bit first bitmap
  set_frames count (first + 1) bitmap'

pub pmm_mark_used : ℕ → ℕ → Memory → Run Memory
pmm_mark_used phys_addr size m =
    if size == 0
    then ok m
    else (let first_frame = phys_addr / 4096 in
        let last_frame = sub32 (add32 phys_addr size) 1 / 4096 in
        do
          bitmap ← set_frames (last_frame + 1 - first_frame) first_frame m.mem_bitmap
          ok (record m { mem_bitmap = bitmap }))

-- `free_mem_addr` rounded up to the next page, as `kmalloc_a` does it.
pub page_up : ℕ → ℕ
page_up addr = if bit_and addr 0xFFF != 0 then add32 (bit_and addr 0xFFFFF000) 0x1000 else addr

pub kmalloc_a : ℕ → Memory → Run (ℕ × Memory)
kmalloc_a size m =
    let ptr = page_up m.free_mem_addr in
    let bumped : Memory = record m {
      free_mem_addr = add32 ptr size;
      allocated_memory = add32 m.allocated_memory size;
    } in
    do marked ← pmm_mark_used ptr size bumped; ok (ptr, marked)

-- The loop of `init_pmm` over the frames of a usable region.
pub clear_frames : ℕ → ℕ → List ℕ → Run (List ℕ)
clear_frames zero first bitmap = ok bitmap
clear_frames (suc count) first bitmap = do
  bitmap' ← pmm_clear_bit first bitmap
  clear_frames count (first + 1) bitmap'

-- The body of the loop of `init_pmm` over the memory map.
pub free_region : MmapEntry → Memory → Run Memory
free_region mmap m =
    if mmap.type == 1
    then (if mmap.base_addr_high == 0
        then (let first_frame = mmap.base_addr_low / 4096 in
            let num_frames = mmap.length_low / 4096 in
            do
              bitmap ← clear_frames num_frames first_frame m.mem_bitmap
              ok (record m {
                mem_bitmap = bitmap;
                max_frames =
                    if ltb m.max_frames (first_frame + num_frames)
                    then first_frame + num_frames
                    else m.max_frames;
              }))
        else ok m)
    else ok m

-- The body of the loop of `init_memory` over the memory map.
pub count_region : MmapEntry → Memory → Run Memory
count_region mmap m =
    ok (
      if mmap.type == 1
      then record m { total_memory = add32 m.total_memory mmap.length_low }
      else m)

-- `fuel` bounds the rounds of the loop over the memory map.
pub init_memory : ℕ → Ram → MultibootInfo → ℕ → Memory → Run Memory
init_memory fuel ram mbd magic m =
    let tested = (kmalloc 10 m).1 in
    if magic != 0x2BADB002
    then ok tested
    else if bit_and mbd.flags 64 == 0
    then ok tested
    else walk fuel ram mbd.mmap_addr (add32 mbd.mmap_addr mbd.mmap_length) count_region tested

-- `mem_bitmap` with every word 0xFFFFFFFF.
pub all_used : List ℕ
all_used = replicate bitmap_words full_word

pub init_pmm : ℕ → Ram → MultibootInfo → Memory → Run Memory
init_pmm fuel ram mbd m =
    let filled : Memory = record m { mem_bitmap = all_used } in
    do
      mapped ←
          (if bit_and mbd.flags 64 == 0
            then ok filled
            else walk fuel ram mbd.mmap_addr (add32 mbd.mmap_addr mbd.mmap_length) free_region
                filled)
      low ← pmm_set_bit 0 mapped.mem_bitmap
      let kernel_frames = add32 mapped.free_mem_addr 4095 / 4096
      bitmap ← set_frames kernel_frames 0 low
      ok (record mapped { mem_bitmap = bitmap })

-- The two loops of `pmm_alloc_block`: the first 0 bit of the words from index `i` on, as a frame.
pub find_frame : List ℕ → ℕ → Option ℕ
find_frame [] i = none
find_frame (w ∷ ws) i =
    let later = find_frame ws (i + 1) in
    if w != full_word
    then elim (find_zero 32 0 w) [ some bit ↦ some (i * 32 + bit) | none ↦ later ]
    else later

pub pmm_alloc_block : Memory → Run (ℕ × Memory)
pmm_alloc_block m = elim (find_frame m.mem_bitmap 0) [
  | none ↦ ok (0, m)
  | some frame ↦ if leb m.max_frames frame then ok (0, m) else do
    bitmap ← pmm_set_bit frame m.mem_bitmap
    ok (
      u32 (frame * 4096),
      record m { mem_bitmap = bitmap; allocated_memory = add32 m.allocated_memory 4096 },
    )
]

pub pmm_free_block : ℕ → Memory → Run Memory
pmm_free_block p_addr m = do
  bitmap ← pmm_clear_bit (p_addr / 4096) m.mem_bitmap
  ok (record m { mem_bitmap = bitmap; allocated_memory = sub32 m.allocated_memory 4096 })
