-- ===== src/Syscall.antt =====
-- src/syscall.c: the system calls. `console` is what has been handed to `print`, in order. The
-- processor's access to memory through the page tables is the parameter `cpu_read`: the byte that
-- a load from a virtual address yields.
pub mod Write
mod Tests
use cindy_os.Base.{
  ℕ, zero, suc, ◌+◌, ◌-◌, ◌*◌, ◌/◌, Bool, true, false, ◌&&◌, ◌||◌, Option, none, some, List, [],
  ◌∷◌, ◌++◌, ltb, ◌==◌, ◌!=◌, if◌then◌else◌, add32, minus_one, not, Run, ok, fault, out_of_fuel,
  ◌>>=◌,
}
use cindy_os.CString.{printed}
use cindy_os.Paging.{Machine, validate_user_region}
use cindy_os.Process.{Regs, Kernel, Process, modify, proc_enqueue, proc_dequeue}

-- The state that a system call reads and writes.
pub record System : Type 0 where
  pub kernel : Kernel
  pub machine : Machine
  pub console : List ℕ
  pub last_exit_status : ℕ
  pub syscall_exit_requested : ℕ
  pub syscall_kernel_fallback : ℕ

-- The registers that `pusha` saved, and the return address above them.
pub record Frame : Type 0 where
  pub regs : Regs
  pub eip : ℕ

abbrev pub set_eax : ℕ → Frame → Frame
set_eax v f = record f { regs = record (f.regs) { eax = v } }

unfoldable pub validate_user_ptr : ℕ → ℕ → System → Run ℕ
validate_user_ptr ptr len s =
    if ptr == 0
    then ok 0
    else if s.syscall_kernel_fallback != 0
    then ok 1
    else validate_user_region ptr len s.machine

module _ (cpu_read : Machine → ℕ → ℕ) where
  -- The bytes from a virtual address on.
  pub read_bytes : Machine → ℕ → ℕ → List ℕ
  read_bytes m a zero = []
  read_bytes m a (suc n) = cpu_read m a ∷ read_bytes m (add32 a 1) n

  -- `none` is the result -1. The destination, a buffer of the kernel, is never `NULL` here.
  unfoldable copy_from_user : ℕ → ℕ → System → Run (Option (List ℕ))
  copy_from_user user_src len s = if user_src == 0 then ok none else do
    valid ← validate_user_ptr user_src len s
    ok (if valid == 0 then none else some (read_bytes s.machine user_src len))

  -- The loop of SYS_WRITE from `offset` on; its result is `written`, which equals `offset`.
  pub write_loop : ℕ → ℕ → ℕ → ℕ → System → Run (ℕ × System)
  write_loop zero user_buf len offset s = out_of_fuel
  write_loop (suc fuel) user_buf len offset s =
      let take = if ltb 1024 (len - offset) then 1024 else len - offset in
      let kernel_mode_call = s.syscall_kernel_fallback != 0 in
      let copied =
        (if kernel_mode_call
          then ok (some (read_bytes s.machine (add32 user_buf offset) take))
          else copy_from_user (add32 user_buf offset) take s) in
      let round = copied >>= λ tmp. elim tmp [
        | none ↦ ok (offset, s)
        | some bytes ↦
            write_loop fuel user_buf len (offset + take)
              (record s { console = s.console ++ printed bytes })
      ] in
      if ltb offset len then round else ok (offset, s)

  -- Any descriptor but 1 and 2 gives -1, whatever the process's table of descriptors says of it.
  pub sys_write : System → Frame → Run (System × Frame)
  sys_write s f =
      let fd = f.regs.ebx in
      if fd == 1 || fd == 2
      then (do
        (written, s') ← write_loop (f.regs.edx / 1024 + 2) f.regs.ecx f.regs.edx 0 s
        ok (s', set_eax written f))
      else ok (s, set_eax minus_one f)

  unfoldable sys_open : System → Frame → Run (System × Frame)
  sys_open s f =
      let path = f.regs.ebx in
      let first = cpu_read s.machine path in
      do
        valid ←
            (if path == 0
              then ok 0
              else if s.syscall_kernel_fallback != 0
              then ok 1
              else validate_user_ptr path 1 s)
        ok (
            if valid == 0
            then (s, set_eax minus_one f)
            else if first == b'/' || first == b'.'
            then (s, set_eax 1 f)
            else (s, set_eax minus_one f))

module _ (cpu_write : Machine → ℕ → ℕ → Machine) where
  -- Bytes stored one by one from a virtual address on.
  unfoldable write_bytes : ℕ → List ℕ → Machine → Machine
  write_bytes a [] m = m
  write_bytes a (c ∷ cs) m = write_bytes (add32 a 1) cs (cpu_write m a c)

  -- `false` is the result -1. The source, a buffer of the kernel, is given by its bytes.
  unfoldable copy_to_user : ℕ → List ℕ → ℕ → System → Run (Bool × System)
  copy_to_user user_dst src len s = if user_dst == 0 then ok (false, s) else do
    valid ← validate_user_ptr user_dst len s
    ok (
        if valid == 0
        then (false, s)
        else (true, record s { machine = write_bytes user_dst src s.machine }))

pub sys_exit : System → Frame → System × Frame
sys_exit s f = (record s { last_exit_status = f.regs.ebx; syscall_exit_requested = 1 }, set_eax 0 f)

pub sys_read : System → Frame → System × Frame
sys_read s f = (s, set_eax (if f.regs.ebx == 0 then 0 else minus_one) f)

pub sys_close : System → Frame → System × Frame
sys_close s f =
    let fd = f.regs.ebx in (s, set_eax (if fd == 0 || (fd == 1 || fd == 2) then 0 else minus_one) f)

-- Some register of a saved frame is not 0 (`esp` is not asked).
unfoldable pub has_saved_regs : Regs → Bool
has_saved_regs r =
    r.edi != 0
    || (r.eax != 0 || (r.ebx != 0 || (r.ecx != 0 || (r.edx != 0 || (r.ebp != 0 || r.esi != 0)))))

-- The frame that resumes a process: its saved registers, or a fresh start at its entry.
unfoldable pub resume_frame : Process → Frame → Frame
resume_frame next f = record {
  regs = if has_saved_regs next.regs then next.regs else record (f.regs) {
    edi = 0;
    esi = 0;
    ebp = 0;
    ebx = 0;
    edx = 0;
    ecx = 0;
    eax = 0;
    esp =
        if next.esp != 0
        then next.esp
        else if next.user_stack_top != 0
        then next.user_stack_top
        else f.regs.esp;
  };
  eip = if next.saved_eip != 0 then next.saved_eip else next.entry;
}

-- `prev->regs = *r; prev->esp = r->esp; prev->saved_eip = *saved_eip_ptr`
abbrev pub save_context : Frame → Process → Process
save_context f r = record r { regs = f.regs; esp = f.regs.esp; saved_eip = f.eip }

unfoldable pub sys_yield : System → Frame → Run (System × Frame)
sys_yield s f =
    let prev = s.kernel.curr_proc in
    let save : Run Kernel = modify prev (save_context f) s.kernel >>= proc_enqueue prev in
    do
      saved ← (if prev == 0 then ok (s.kernel) else save)
      (next, kernel) ← proc_dequeue saved
      if next == 0
          then ok (record s { kernel = kernel }, set_eax 0 f)
          else elim (kernel.procs next) [
            | none ↦ fault
            | some r ↦ ok (record s { kernel = kernel }, set_eax 0 (resume_frame r f))
          ]

module _ (cpu_read : Machine → ℕ → ℕ) where
  pub handle_syscall : System → Frame → Run (System × Frame)
  handle_syscall s f =
      let num = f.regs.eax in
      if num == 0
      then ok (sys_exit s f)
      else if num == 1
      then sys_write cpu_read s f
      else if num == 4
      then ok (sys_read s f)
      else if num == 2
      then sys_open cpu_read s f
      else if num == 3
      then ok (sys_close s f)
      else if num == 5
      then sys_yield s f
      else ok (s, set_eax minus_one f)
