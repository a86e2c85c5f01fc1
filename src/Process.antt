-- ===== src/Process.antt =====
-- src/process.c and src/scheduler.c: the ready queue, a singly linked list through `next`, and the
-- process that runs. `procs` holds each `struct process` by its address; following a pointer to
-- nothing is `fault`. `jump_to_usermode` is assembly and is left to the caller of `schedule`.
pub mod Queue
pub mod Ring
pub mod Create
mod Tests
use cindy_os.Base.{
  ℕ, zero, suc, ◌+◌, Bool, Option, none, some, List, ◌==◌, ◌!=◌, if◌then◌else◌, add32, Run, ok,
  fault, out_of_fuel, ◌>>=◌, ◌&&◌, true, false,
}

abbrev pub Ptr : Type 0
Ptr = ℕ

-- include/regs.h
pub record Regs : Type 0 where
  pub edi : ℕ
  pub esi : ℕ
  pub ebp : ℕ
  pub esp : ℕ
  pub ebx : ℕ
  pub edx : ℕ
  pub ecx : ℕ
  pub eax : ℕ

-- include/process.h
pub data FdType : Type 0 where
  fd_type_none fd_type_studio fd_type_fat16 : FdType

pub record FdEntry : Type 0 where
  pub type : FdType
  pub name8 : List ℕ
  pub ext3 : List ℕ
  pub offset : ℕ

pub data ProcState : Type 0 where
  proc_new proc_ready proc_running proc_blocked proc_exited : ProcState

pub record Process : Type 0 where
  pub pid : ℕ
  pub state : ProcState
  pub entry : ℕ
  pub esp : ℕ
  pub user_stack_top : ℕ
  pub regs : Regs
  pub saved_eip : ℕ
  pub kernel_stack : Ptr
  pub page_dir : Ptr
  pub next : Ptr
  pub fds : List FdEntry

abbrev pub Procs : Type 0
Procs = Ptr → Option Process

pub record Kernel : Type 0 where
  pub procs : Procs
  pub curr_proc : Ptr
  pub ready_head : Ptr
  pub ready_tail : Ptr
  pub next_pid : ℕ

unfoldable pub update : Procs → Ptr → Process → Procs
update procs p r q = if q == p then some r else procs q

-- `*p = f(*p)`
unfoldable pub modify : Ptr → (Process → Process) → Kernel → Run Kernel
modify p f k = elim (k.procs p) [
  | none ↦ fault
  | some r ↦ ok (record k { procs = update k.procs p (f r) })
]

-- `p->next`
unfoldable pub next_of : Ptr → Kernel → Run Ptr
next_of p k = elim (k.procs p) [ none ↦ fault | some r ↦ ok r.next ]

abbrev pub set_next : Ptr → Process → Process
set_next q r = record r { next = q }

abbrev pub set_state : ProcState → Process → Process
set_state st r = record r { state = st }

unfoldable pub queue_push : Ptr → Kernel → Run Kernel
queue_push p k = if p == 0 then ok k else do
  k₁ ← modify p (set_next 0) k
  let linked : Run Kernel = modify k₁.ready_tail (set_next p) k₁
  if k₁.ready_head == 0
      then ok (record k₁ { ready_head = p; ready_tail = p })
      else (do k₂ ← linked; ok (record k₂ { ready_tail = p }))

unfoldable pub queue_pop : Kernel → Run (Ptr × Kernel)
queue_pop k = if k.ready_head == 0 then ok (0, k) else do
  head ← next_of k.ready_head k
  let k₁ : Kernel = record k { ready_head = head }
  let k₂ : Kernel = if head == 0 then record k₁ { ready_tail = 0 } else k₁
  k₃ ← modify k.ready_head (set_next 0) k₂
  ok (k.ready_head, k₃)

unfoldable pub process_init : Kernel → Kernel
process_init k = record k { curr_proc = 0; ready_head = 0; ready_tail = 0; next_pid = 1 }

unfoldable pub proc_enqueue : Ptr → Kernel → Run Kernel
proc_enqueue p k =
    if p == 0 then ok k else do k₁ ← modify p (set_state proc_ready) k; queue_push p k₁

unfoldable pub proc_dequeue : Kernel → Run (Ptr × Kernel)
proc_dequeue k = do
  (next, k₁) ← queue_pop k
  if next == 0 then ok (0, k₁) else (do
    k₂ ← modify next (set_state proc_running) k₁
    ok (next, record k₂ { curr_proc = next }))

unfoldable pub proc_yield : Kernel → Run Kernel
proc_yield k = if k.curr_proc == 0 then ok k else do
  k₁ ← modify k.curr_proc (set_state proc_ready) k
  k₂ ← queue_push k.curr_proc k₁
  (next, k₃) ← queue_pop k₂
  if next == 0
      then ok (record k₃ { curr_proc = 0 })
      else (do k₄ ← modify next (set_state proc_running) k₃; ok (record k₄ { curr_proc = next }))

-- The walk of `get_proc_by_pid` along the ready queue; `fuel` bounds its rounds.
unfoldable pub find_ready : ℕ → ℕ → Ptr → Kernel → Run Ptr
find_ready zero pid p k = out_of_fuel
find_ready (suc fuel) pid p k =
    let later = λ (r : Process). find_ready fuel pid r.next k in
    if p == 0
    then ok 0
    else elim (k.procs p) [ none ↦ fault | some r ↦ if r.pid == pid then ok p else later r ]

unfoldable pub get_proc_by_pid : ℕ → ℕ → Kernel → Run Ptr
get_proc_by_pid fuel pid k = do
  p ← find_ready fuel pid k.ready_head k
  if p != 0 then ok p else if k.curr_proc == 0 then ok 0 else elim (k.procs k.curr_proc) [
    | none ↦ fault
    | some r ↦ if r.pid == pid then ok k.curr_proc else ok 0
  ]

abbrev pub is_running : ProcState → Bool
is_running proc_running = true
is_running _ = false

-- `schedule`, up to the jump: the process to resume, or `NULL`.
unfoldable pub schedule : Kernel → Run (Ptr × Kernel)
schedule k = do
  k₁ ←
      (if k.curr_proc == 0 then ok k else (elim (k.procs k.curr_proc) [
        | none ↦ fault
        | some r ↦ if is_running r.state then proc_enqueue k.curr_proc k else ok k
      ]))
  proc_dequeue k₁

-- The stack pointer and the address that `schedule` jumps to.
unfoldable pub resume_at : Process → ℕ × ℕ
resume_at r = (if r.user_stack_top != 0 then r.user_stack_top else r.esp, r.entry)
