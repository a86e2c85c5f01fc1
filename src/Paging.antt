-- ===== src/Paging.antt =====
-- src/paging.c: the page directory and the page tables, which the kernel reaches at their physical
-- addresses (RAM is identity-mapped). `invlpg` has no state here; printing is left out.
pub mod Tables
pub mod Map
pub mod User
pub mod Init
pub mod Tests
use cindy_os.Base.{
  ℕ, zero, suc, ◌+◌, ◌*◌, ◌/◌, bit_and, bit_or, Bool, ltb, leb, ◌==◌, if◌then◌else◌, add32, ◌>>>◌,
  u32, Run, ok, out_of_fuel, ◌>>=◌, ◌||◌,
}
use cindy_os.Base.Ram.{Ram, load32, store32}
use cindy_os.Memory.{Memory, kmalloc_a, pmm_alloc_block}

-- The machine as paging.c sees it.
pub record Machine : Type 0 where
  pub memory : Memory
  pub ram : Ram
  pub page_direc : ℕ
  pub cr3 : ℕ
  pub cr0 : ℕ

unfoldable pub pd_index : ℕ → ℕ
pd_index virtual_addr = virtual_addr >>> 22

unfoldable pub pt_index : ℕ → ℕ
pt_index virtual_addr = bit_and (virtual_addr >>> 12) 0x3FF

-- `page_direc[i]`.
unfoldable pub pde_at : Machine → ℕ → ℕ
pde_at s i = load32 s.ram (s.page_direc + 4 * i)

unfoldable pub get_pte : ℕ → Machine → ℕ
get_pte virtual_addr s =
    let pde = pde_at s (pd_index virtual_addr) in
    if bit_and pde 1 == 0
    then 0
    else load32 s.ram (bit_and pde 0xFFFFF000 + 4 * pt_index virtual_addr)

-- `for (i = 0; i < count; i++) table[i] = 0;`
pub zero_words : ℕ → ℕ → Ram → Ram
zero_words zero table ram = ram
zero_words (suc count) table ram = zero_words count (table + 4) (store32 ram table 0)

pub map_page : ℕ → ℕ → ℕ → Machine → Run Machine
map_page physical_addr virtual_addr flags s =
    let pd = pd_index virtual_addr in
    let pt = pt_index virtual_addr in
    let entry = bit_or (bit_or physical_addr flags) 1 in
    if bit_and (pde_at s pd) 1 == 0
    then (do
      (pt_phys, memory) ← pmm_alloc_block s.memory
      if pt_phys == 0
          then ok (record s { memory = memory })
          else (let installed = store32 s.ram (s.page_direc + 4 * pd) (bit_or pt_phys 7) in
              let cleared = zero_words 1024 pt_phys installed in
              ok (record s { memory = memory; ram = store32 cleared (pt_phys + 4 * pt) entry })))
    else (let page_table = bit_and (pde_at s pd) 0xFFFFF000 in
        ok (record s { ram = store32 s.ram (page_table + 4 * pt) entry }))

-- The loop of `validate_user_region`, which ends after at most `fuel` rounds.
pub validate_pages : ℕ → ℕ → ℕ → Machine → Run ℕ
validate_pages zero addr stop s = out_of_fuel
validate_pages (suc fuel) addr stop s =
    let pde = pde_at s (addr >>> 22) in
    let pte = load32 s.ram (bit_and pde 0xFFFFF000 + 4 * bit_and (addr >>> 12) 0x3FF) in
    let rest = validate_pages fuel (add32 addr 0x1000) stop s in
    if ltb addr stop
    then (if leb 1024 (addr >>> 22)
        then ok 0
        else if bit_and pde 1 == 0
        then ok 0
        else if bit_and pte 1 == 0
        then ok 0
        else if bit_and pte 4 == 0
        then ok 0
        else rest)
    else ok 1

-- 786433 rounds are more than the pages below 0xC0000000.
pub validate_user_region : ℕ → ℕ → Machine → Run ℕ
validate_user_region user_addr len s =
    let stop = add32 user_addr len in
    if len == 0
    then ok 1
    else if ltb user_addr 0x100000 || leb 0xC0000000 user_addr
    then ok 0
    else if ltb stop user_addr || ltb 0xC0000000 stop
    then ok 0
    else validate_pages 786433 user_addr stop s

-- The inner loop of `init_paging`: entries `p` and up of the table for directory entry `t`.
unfoldable pub fill_table : ℕ → ℕ → ℕ → ℕ → Ram → Ram
fill_table zero t p table ram = ram
fill_table (suc count) t p table ram =
    fill_table count t (p + 1) table
      (store32 ram (table + 4 * p) (bit_or (u32 ((t * 1024 + p) * 0x1000)) 7))

-- The outer loop of `init_paging`: directory entries `t` and up.
unfoldable pub map_directory : ℕ → ℕ → Machine → Run Machine
map_directory zero t s = ok s
map_directory (suc count) t s = do
  (table, memory) ← kmalloc_a 4096 s.memory
  let filled = fill_table 1024 t 0 table s.ram
  map_directory count (t + 1)
      (record s { memory = memory; ram = store32 filled (s.page_direc + 4 * t) (bit_or table 7) })

unfoldable pub required_pdes : ℕ → ℕ
required_pdes total_memory =
    let mapped_bytes = if total_memory == 0 then 0x20000000 else total_memory in
    let needed = add32 mapped_bytes 0x3FFFFF / 0x400000 in if ltb 1024 needed then 1024 else needed

unfoldable pub init_paging : Machine → Run Machine
init_paging s = do
  (direc, memory) ← kmalloc_a 4096 s.memory
  mapped ←
      map_directory (required_pdes memory.total_memory) 0
        (record s { memory = memory; page_direc = direc; ram = zero_words 1024 direc s.ram })
  ok (record mapped { cr3 = mapped.page_direc; cr0 = bit_or mapped.cr0 0x80000000 })
