-- ===== src/Syscall/Tests.antt =====
-- src/syscall.c: the theorem on a call from user mode, with one user page at 0x400000.
use cindy_os.Base.{
  ℕ, ◌+◌, ◌*◌, ◌/◌, ◌%◌, ◌∙◌, leb, if◌then◌else◌, ◌≡◌, inl, refl, none, [], ◌∷◌, ◌++◌, arith, ok,
}
use cindy_os.Base.Ram.{load32, store32}
use cindy_os.Paging.{Machine, pd_index, pt_index, pde_at, get_pte}
use cindy_os.Paging.User.{IsUser, IsUser-page, get_pte-page}
use cindy_os.Syscall.{System, Frame, set_eax, read_bytes, sys_write}
use cindy_os.Syscall.Write.{IsReadable, NoNul, sys_write-user}

-- Directory entry 1 names the table in frame 101, whose entry 0 is the user page at 0x800000, full of A.
abbrev machine : Machine
machine = record {
  memory = record {
    free_mem_addr = 0;
    total_memory = 0;
    allocated_memory = 0;
    mem_bitmap = [];
    max_frames = 0;
  };
  ram = λ x.
      store32 (store32 (λ a. if leb 0x800000 a then 65 else 0) 0x64004 0x65007) 0x65000 0x800007 x;
  page_direc = 0x64000;
  cr3 = 0;
  cr0 = 0;
}

abbrev system : System
system = record {
  kernel = record {
    procs = λ p. none;
    curr_proc = 0;
    ready_head = 0;
    ready_tail = 0;
    next_pid = 1;
  };
  machine = machine;
  console = 66 ∷ [];
  last_exit_status = 0;
  syscall_exit_requested = 0;
  syscall_kernel_fallback = 0;
}

-- SYS_WRITE of 2000 bytes, which takes two rounds of the loop.
abbrev frame : Frame
frame = record {
  regs = record {
    edi = 0;
    esi = 0;
    ebp = 0;
    esp = 0;
    ebx = 1;
    edx = 2000;
    ecx = 0x400000;
    eax = 1;
  };
  eip = 0;
}

-- The processor's translation of an address.
abbrev read : Machine → ℕ → ℕ
read m a = m.ram (get_pte a m / 4096 * 4096 + a % 4096)

page : get_pte 0x400000 machine ≡ 0x800007
unfolding get_pte pd_index pt_index pde_at load32 store32
page = refl

page-IsUser : IsUser machine 0x400000
page-IsUser = rw page refl

buffer-IsReadable : IsReadable machine 0x400000 2000
buffer-IsReadable =
    (omega arith, omega arith, λ x lo hi. IsUser-page 0x400000 x machine (omega arith) page-IsUser)

buffer-NoNul : NoNul read machine 0x400000 2000
unfolding store32
buffer-NoNul i lt =
    let same : get_pte (0x400000 + i) machine ≡ 0x800007 =
      get_pte-page (0x400000 + i) 0x400000 machine (omega arith) ∙ page in
    rw same (ground arith)

sys_write-user_example :
    sys_write read system frame
    ≡ ok (
      record system { console = system.console ++ read_bytes read machine 0x400000 2000 },
      set_eax 2000 frame,
    )
sys_write-user_example =
    sys_write-user read system frame (inl refl) refl buffer-IsReadable buffer-NoNul
