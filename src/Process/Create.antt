-- ===== src/Process/Create.antt =====
-- src/process.c: `task_create_from_elf`. The file's buffer is read and written at its address, where
-- the kernel's memory is identity-mapped. What is printed is left out.
use cindy_os.Base.{
  ℕ, ◌+◌, ltb, leb, ◌==◌, ◌!=◌, ◌||◌, if◌then◌else◌, List, replicate, Option, none, some, add32,
  Run, ok, ◌>>=◌,
}
use cindy_os.Memory.{kmalloc_a, pmm_alloc_block}
use cindy_os.Paging.{Machine, map_page}
use cindy_os.Ata.{Disk}
use cindy_os.Fat16.{Volume}
use cindy_os.Fat16.Name.{fat16_format_83}
use cindy_os.Fat16.Read.{fat16_read_file}
use cindy_os.Elf.{set_virtual, load_elf_program}
use cindy_os.Process.{Kernel, Process, Regs, FdEntry, fd_type_none, proc_new, update, proc_enqueue}

-- `sizeof(struct process)`
abbrev pub sizeof_process : ℕ
sizeof_process = 260

abbrev pub no_file : FdEntry
no_file = record { type = fd_type_none; name8 = replicate 9 0; ext3 = replicate 4 0; offset = 0 }

abbrev pub no_regs : Regs
no_regs = record { edi = 0; esi = 0; ebp = 0; esp = 0; ebx = 0; edx = 0; ecx = 0; eax = 0 }

-- The structure, zero but for the fields that are set.
unfoldable pub new_process : ℕ → ℕ → Process
new_process pid entry = record {
  pid = pid;
  state = proc_new;
  entry = entry;
  esp = 0x80000FFC;
  user_stack_top = 0x80000FFC;
  regs = no_regs;
  saved_eip = 0;
  kernel_stack = 0;
  page_dir = 0;
  next = 0;
  fds = replicate 8 no_file;
}

-- The last part: the stack, the structure, and the queue. `none` is the result -1, else the `pid`.
unfoldable pub add_task :
    (Machine → ℕ → ℕ → Machine) → ℕ → Machine → Kernel → Run (Option ℕ × (Machine × Kernel))
add_task cpu_write entry m k = do
  (stack_phys, taken) ← pmm_alloc_block m.memory
  let created : Run (Option ℕ × (Machine × Kernel)) = (do
    mapped ← map_page stack_phys 0x80000000 7 (record m { memory = taken })
    let cleared : Machine = set_virtual cpu_write 4096 0x80000000 0 mapped
    (p, memory) ← kmalloc_a sizeof_process cleared.memory
    let m' : Machine = record cleared { memory = memory }
    let queued : Run (Option ℕ × (Machine × Kernel)) = (do
      k' ← proc_enqueue p (record k {
        procs = update k.procs p (new_process k.next_pid entry);
        next_pid = add32 k.next_pid 1;
      })
      ok (some k.next_pid, (m', k')))
    if p == 0 then ok (none, (m', k)) else queued)
  if stack_phys == 0 then ok (none, (record m { memory = taken }, k)) else created

module _ (cpu_read : Machine → ℕ → ℕ) (cpu_write : Machine → ℕ → ℕ → Machine) where
  unfoldable pub task_create_from_elf :
      Option (List ℕ) → Volume → Disk → Machine → Kernel → Run (Option ℕ × (Machine × Kernel))
  task_create_from_elf none v disk m k = ok (none, (m, k))
  task_create_from_elf (some path) v disk m k =
      let (name8, ext3) = fat16_format_83 path in
      do
        (buf, memory) ← kmalloc_a 4096 m.memory
        let m₁ : Machine = record m { memory = memory }
        let created : Run (Option ℕ × (Machine × Kernel)) = (do
          (bytes, ram) ← fat16_read_file name8 ext3 buf 4096 v disk m₁.ram
          let m₂ : Machine = record m₁ { ram = ram }
          let loaded : Run (Option ℕ × (Machine × Kernel)) = (do
            (entry, m₃) ← load_elf_program cpu_read cpu_write buf bytes m₂
            elim entry [ none ↦ ok (none, (m₃, k)) | some e ↦ add_task cpu_write e m₃ k ])
          if leb 2147483648 bytes
                || (ltb bytes 4
                    || (ram buf != 0x7F
                        || (ram (buf + 1) != b'E'
                            || (ram (buf + 2) != b'L' || ram (buf + 3) != b'F'))))
              then ok (none, (m₂, k))
              else loaded)
        if buf == 0 then ok (none, (m₁, k)) else created
