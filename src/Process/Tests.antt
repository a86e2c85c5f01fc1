-- ===== src/Process/Tests.antt =====
-- src/process.c and src/scheduler.c: the theorems on two processes.
use cindy_os.Base.{ℕ, ◌≡◌, refl, none, some, [], ◌∷◌, ◌++◌, arith, ◌==◌, if◌then◌else◌, Returns}
use cindy_os.Process.{
  Regs, Process, ProcState, proc_ready, proc_running, Kernel, Procs, queue_push, queue_pop,
  proc_yield, schedule,
}
use cindy_os.Process.Queue.{IsQueue, Pushed, Popped, queue_push_lem, queue_pop_lem}
use cindy_os.Process.Ring.{
  IsRing, Idle, rotate, proc_yield-rotate, yield_times, yield_times_reaches, schedule-rotate,
}

abbrev no_regs : Regs
no_regs = record { edi = 0; esi = 0; ebp = 0; esp = 0; ebx = 0; edx = 0; ecx = 0; eax = 0 }

abbrev process : ℕ → ProcState → Process
process pid state = record {
  pid = pid;
  state = state;
  entry = 0x1000000;
  esp = 0;
  user_stack_top = 0x2000000;
  regs = no_regs;
  saved_eip = 0;
  kernel_stack = 0;
  page_dir = 0;
  next = 0;
  fds = [];
}

-- Process 16 runs, process 32 is ready, process 48 is in no list.
abbrev procs : Procs
procs p =
    if p == 16
    then some (process 1 proc_running)
    else if p == 32
    then some (process 2 proc_ready)
    else if p == 48
    then some (process 3 proc_ready)
    else none

abbrev kernel : Kernel
kernel = record { procs = procs; curr_proc = 16; ready_head = 32; ready_tail = 32; next_pid = 4 }

kernel-IsQueue : IsQueue kernel (32 ∷ [])
kernel-IsQueue = record {
  chain = (refl, omega arith, (process 2 proc_ready, refl, refl));
  tail = refl;
  distinct = (tt, tt);
}

kernel-IsRing : IsRing kernel (16 ∷ 32 ∷ [])
kernel-IsRing =
    (refl, omega arith, (omega arith, tt), (process 1 proc_running, refl, refl), kernel-IsQueue)

queue_push_lem_example : Returns (Pushed 48 kernel (32 ∷ [])) (queue_push 48 kernel)
queue_push_lem_example =
    queue_push_lem 48 (32 ∷ []) (process 3 proc_ready) kernel-IsQueue (omega arith)
      (omega arith, tt) refl

queue_pop_lem_example : Returns (λ (q, k'). (q ≡ 32) × Popped 32 kernel [] k') (queue_pop kernel)
queue_pop_lem_example = queue_pop_lem 32 [] kernel-IsQueue

proc_yield-rotate_example :
    Returns
      (λ k'. IsRing k' (rotate (16 ∷ 32 ∷ [])) × Idle (16 ∷ 32 ∷ []) kernel k')
      (proc_yield kernel)
proc_yield-rotate_example = proc_yield-rotate kernel (16 ∷ 32 ∷ []) kernel-IsRing

yield_times_reaches_example :
    Returns (λ k'. (k'.curr_proc ≡ 32) × IsRing k' (32 ∷ [] ++ (16 ∷ []))) (yield_times 1 kernel)
yield_times_reaches_example = yield_times_reaches kernel (16 ∷ []) [] 32 kernel-IsRing

schedule-rotate_example :
    Returns (λ (p, k'). (p ≡ k'.curr_proc) × IsRing k' (rotate (16 ∷ 32 ∷ []))) (schedule kernel)
schedule-rotate_example = schedule-rotate 16 (32 ∷ []) kernel-IsRing
