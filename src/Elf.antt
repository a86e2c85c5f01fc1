-- ===== src/Elf.antt =====
-- src/keyboard.c: `load_elf_program` and `enter_user_program`. The processor's accesses through the
-- page tables are the parameters `cpu_read` and `cpu_write`; `jump_to_usermode` is assembly, and the
-- call of it is the caller's.
pub mod Pages
mod Tests
use cindy_os.Base.{
  ℕ, zero, suc, ◌+◌, ◌-◌, ◌*◌, ◌/◌, bit_and, ltb, leb, ◌==◌, ◌!=◌, ◌||◌, if◌then◌else◌, Bool, true,
  false, add32, u32, not32, Option, none, some, Run, ok, out_of_fuel, ◌>>=◌,
}
use cindy_os.Memory.{pmm_alloc_block}
use cindy_os.Paging.{Machine, get_pte, map_page}

pub record Elf32Ehdr : Type 0 where
  pub e_type : ℕ
  pub e_machine : ℕ
  pub e_version : ℕ
  pub e_entry : ℕ
  pub e_phoff : ℕ
  pub e_shoff : ℕ
  pub e_flags : ℕ
  pub e_ehsize : ℕ
  pub e_phentsize : ℕ
  pub e_phnum : ℕ
  pub e_shentsize : ℕ
  pub e_shnum : ℕ
  pub e_shstrndx : ℕ

pub record Elf32Phdr : Type 0 where
  pub p_type : ℕ
  pub p_offset : ℕ
  pub p_vaddr : ℕ
  pub p_paddr : ℕ
  pub p_filesz : ℕ
  pub p_memsz : ℕ
  pub p_flags : ℕ
  pub p_align : ℕ

-- The loop over the pages of a segment from `vaddr` on; `false` is out of memory, for which the
-- function returns -1. `map_page` does not say whether it could map the page.
unfoldable pub map_pages : ℕ → ℕ → ℕ → Machine → Run (Bool × Machine)
map_pages zero vaddr map_end s = out_of_fuel
map_pages (suc fuel) vaddr map_end s =
    let rest = map_pages fuel (add32 vaddr 4096) map_end in
    let round : Run (Bool × Machine) =
      if bit_and (get_pte vaddr s) 1 == 0
      then (do
        (phys, memory) ← pmm_alloc_block s.memory
        let taken : Machine = record s { memory = memory }
        let mapped : Run (Bool × Machine) = map_page phys vaddr 7 taken >>= rest
        if phys == 0 then ok (false, taken) else mapped)
      else rest s in
    if ltb vaddr map_end then round else ok (true, s)

-- 1048576 pages are the address space.
abbrev pub page_rounds : ℕ
page_rounds = 1048577

module _ (cpu_write : Machine → ℕ → ℕ → Machine) where
  -- `memset` through the page tables.
  unfoldable pub set_virtual : ℕ → ℕ → ℕ → Machine → Machine
  set_virtual zero d val m = m
  set_virtual (suc n) d val m = set_virtual n (add32 d 1) val (cpu_write m d val)

module _ (cpu_read : Machine → ℕ → ℕ) where
  unfoldable pub read16 : Machine → ℕ → ℕ
  read16 m a = cpu_read m a + cpu_read m (add32 a 1) * 256

  unfoldable pub read32 : Machine → ℕ → ℕ
  read32 m a = read16 m a + read16 m (add32 a 2) * 65536

  unfoldable pub load_ehdr : Machine → ℕ → Elf32Ehdr
  load_ehdr m a = record {
    e_type = read16 m (add32 a 16);
    e_machine = read16 m (add32 a 18);
    e_version = read32 m (add32 a 20);
    e_entry = read32 m (add32 a 24);
    e_phoff = read32 m (add32 a 28);
    e_shoff = read32 m (add32 a 32);
    e_flags = read32 m (add32 a 36);
    e_ehsize = read16 m (add32 a 40);
    e_phentsize = read16 m (add32 a 42);
    e_phnum = read16 m (add32 a 44);
    e_shentsize = read16 m (add32 a 46);
    e_shnum = read16 m (add32 a 48);
    e_shstrndx = read16 m (add32 a 50);
  }

  unfoldable pub load_phdr : Machine → ℕ → Elf32Phdr
  load_phdr m a = record {
    p_type = read32 m a;
    p_offset = read32 m (add32 a 4);
    p_vaddr = read32 m (add32 a 8);
    p_paddr = read32 m (add32 a 12);
    p_filesz = read32 m (add32 a 16);
    p_memsz = read32 m (add32 a 20);
    p_flags = read32 m (add32 a 24);
    p_align = read32 m (add32 a 28);
  }

  module _ (cpu_write : Machine → ℕ → ℕ → Machine) where
    -- `memcpy` through the page tables.
    unfoldable pub copy_virtual : ℕ → ℕ → ℕ → Machine → Machine
    copy_virtual zero d s m = m
    copy_virtual (suc n) d s m =
        copy_virtual n (add32 d 1) (add32 s 1) (cpu_write m d (cpu_read m s))

    -- The copy of a segment, and the zeros behind it.
    unfoldable pub fill_segment : ℕ → Elf32Phdr → Machine → Machine
    fill_segment file_buf ph m =
        let copy_len = if ltb ph.p_memsz ph.p_filesz then ph.p_memsz else ph.p_filesz in
        let copied = copy_virtual copy_len ph.p_vaddr (add32 file_buf ph.p_offset) m in
        if ltb ph.p_filesz ph.p_memsz
        then set_virtual cpu_write (ph.p_memsz - ph.p_filesz) (add32 ph.p_vaddr ph.p_filesz) 0
            copied
        else copied

    -- One program header: `false` is the result -1.
    unfoldable pub load_segment : ℕ → ℕ → Elf32Phdr → Machine → Run (Bool × Machine)
    load_segment file_buf file_size ph m =
        let map_start = bit_and ph.p_vaddr (not32 0xFFF) in
        let map_end = bit_and (add32 (add32 ph.p_vaddr ph.p_memsz) 0xFFF) (not32 0xFFF) in
        let loaded : Run (Bool × Machine) = (do
          (done, m') ← map_pages page_rounds map_start map_end m
          ok (done, if done then fill_segment file_buf ph m' else m')) in
        if ph.p_type != 1
        then ok (true, m)
        else if ph.p_memsz == 0
        then ok (true, m)
        else if ltb file_size (add32 ph.p_offset ph.p_filesz)
        then ok (false, m)
        else loaded

    -- The loop over the program headers from header `i` on. The header is read again in each round,
    -- since the file's buffer may be changed by what is loaded.
    unfoldable pub load_segments : ℕ → ℕ → ℕ → ℕ → Machine → Run (Bool × Machine)
    load_segments zero i file_buf file_size m = out_of_fuel
    load_segments (suc fuel) i file_buf file_size m =
        let ehdr = load_ehdr m file_buf in
        let ph = load_phdr m (add32 (add32 file_buf ehdr.e_phoff) (u32 (i * ehdr.e_phentsize))) in
        let round : Run (Bool × Machine) = (do
          (done, m') ← load_segment file_buf file_size ph m
          let rest = load_segments fuel (i + 1) file_buf file_size m'
          if done then rest else ok (false, m')) in
        if ltb i ehdr.e_phnum then round else ok (true, m)

    -- The entry, or `none` for the result -1. The index `i` has 16 bits: 65536 rounds are enough.
    unfoldable pub load_elf_program : ℕ → ℕ → Machine → Run (Option ℕ × Machine)
    load_elf_program file_buf file_size m =
        let ehdr = load_ehdr m file_buf in
        let loaded : Run (Option ℕ × Machine) = (do
          (done, m') ← load_segments 65536 0 file_buf file_size m
          ok (if done then some ehdr.e_entry else none, m')) in
        if ltb file_size 52
        then ok (none, m)
        else if cpu_read m file_buf != 0x7F
            || (cpu_read m (add32 file_buf 1) != b'E'
                || (cpu_read m (add32 file_buf 2) != b'L' || cpu_read m (add32 file_buf 3) != b'F'))
        then ok (none, m)
        else if ehdr.e_type != 2
        then ok (none, m)
        else if ehdr.e_phnum == 0
        then ok (none, m)
        else if ltb file_size (add32 ehdr.e_phoff (u32 (ehdr.e_phnum * ehdr.e_phentsize)))
        then ok (none, m)
        else loaded

-- `enter_user_program` up to the jump: the machine and the stack pointer, if there was a frame.
unfoldable pub enter_user_program : (Machine → ℕ → ℕ → Machine) → Machine → Run (Option ℕ × Machine)
enter_user_program cpu_write m = do
  (stack_phys, memory) ← pmm_alloc_block m.memory
  let taken : Machine = record m { memory = memory }
  let mapped : Run (Option ℕ × Machine) = (do
    m' ← map_page stack_phys 0x80000000 7 taken
    ok (some 0x80000FFC, set_virtual cpu_write 4096 0x80000000 0 m'))
  if stack_phys == 0 then ok (none, taken) else mapped
