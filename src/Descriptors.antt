-- ===== src/Descriptors.antt =====
-- src/gdt.c and src/idt.c: the task state segment with its descriptor, and the interrupt gates.
-- `tss_flush` and `idt_load` are assembly: the selector and the table they load are kept as state.
pub mod Encoding
pub mod Faults
mod Tests
use cindy_os.Base.{
  ℕ, ◌+◌, ◌-◌, ◌*◌, ◌==◌, if◌then◌else◌, bit_and, bit_or, u16, ◌>>>◌, List, [], ◌∷◌,
}

-- `struct tss_entry`, 104 bytes.
pub record TssEntry : Type 0 where
  pub prev_tss : ℕ
  pub esp0 : ℕ
  pub ss0 : ℕ
  pub esp1 : ℕ
  pub ss1 : ℕ
  pub esp2 : ℕ
  pub ss2 : ℕ
  pub cr3 : ℕ
  pub eip : ℕ
  pub eflags : ℕ
  pub eax : ℕ
  pub ecx : ℕ
  pub edx : ℕ
  pub ebx : ℕ
  pub esp : ℕ
  pub ebp : ℕ
  pub esi : ℕ
  pub edi : ℕ
  pub es : ℕ
  pub cs : ℕ
  pub ss : ℕ
  pub ds : ℕ
  pub fs : ℕ
  pub gs : ℕ
  pub ldt : ℕ
  pub trap : ℕ
  pub iomap_base : ℕ

abbrev pub sizeof_tss : ℕ
sizeof_tss = 104

-- What `memset_tss` leaves.
abbrev pub zero_tss : TssEntry
zero_tss = record {
  prev_tss = 0;
  esp0 = 0;
  ss0 = 0;
  esp1 = 0;
  ss1 = 0;
  esp2 = 0;
  ss2 = 0;
  cr3 = 0;
  eip = 0;
  eflags = 0;
  eax = 0;
  ecx = 0;
  edx = 0;
  ebx = 0;
  esp = 0;
  ebp = 0;
  esi = 0;
  edi = 0;
  es = 0;
  cs = 0;
  ss = 0;
  ds = 0;
  fs = 0;
  gs = 0;
  ldt = 0;
  trap = 0;
  iomap_base = 0;
}

-- The globals of gdt.c, and the task register; `gdt_tss` is the 16 bytes by their index.
pub record Gdt : Type 0 where
  pub tss : TssEntry
  pub gdt_tss : ℕ → ℕ
  pub task_register : ℕ

-- The array `gdt_tss` after `write_tss_descriptor`.
pub write_tss_descriptor : ℕ → ℕ → ℕ → ℕ
write_tss_descriptor base limit i =
    if i == 0
    then bit_and limit 0xFF
    else if i == 1
    then bit_and (limit >>> 8) 0xFF
    else if i == 2
    then bit_and base 0xFF
    else if i == 3
    then bit_and (base >>> 8) 0xFF
    else if i == 4
    then bit_and (base >>> 16) 0xFF
    else if i == 5
    then 0x89
    else if i == 6
    then bit_or (bit_and (limit >>> 16) 0x0F) 0x40
    else if i == 7
    then bit_and (base >>> 24) 0xFF
    else 0

-- `tss_addr` is `&tss`, which the linker chooses.
pub gdt_init_tss : ℕ → ℕ → Gdt → Gdt
gdt_init_tss tss_addr kernel_stack_top g = record {
  tss = record zero_tss {
    ss0 = 0x10;
    esp0 = kernel_stack_top;
    cs = 0x08;
    ds = 0x10;
    es = 0x10;
    fs = 0x10;
    gs = 0x10;
    ss = 0x10;
    iomap_base = sizeof_tss;
  };
  gdt_tss = write_tss_descriptor tss_addr (sizeof_tss - 1);
  task_register = 0x28;
}

pub tss_set_kernel_stack : ℕ → Gdt → Gdt
tss_set_kernel_stack kernel_stack_top g = record g {
  tss = record (g.tss) { esp0 = kernel_stack_top };
}

-- include/idt.h
pub record IdtEntry : Type 0 where
  pub base_low : ℕ
  pub selector : ℕ
  pub always_zero : ℕ
  pub flags : ℕ
  pub base_high : ℕ

pub record IdtPtr : Type 0 where
  pub limit : ℕ
  pub base : ℕ

-- The globals of idt.c; `loaded` is the table register, once it is set.
pub record Idt : Type 0 where
  pub idt : ℕ → IdtEntry
  pub idtp : IdtPtr
  pub loaded : List IdtPtr

-- `idt_addr` is `&idt`.
unfoldable pub idt_init : ℕ → Idt → Idt
idt_init idt_addr t =
    let p : IdtPtr = record { limit = 8 * 256 - 1; base = idt_addr } in
    record t { idtp = p; loaded = p ∷ [] }

pub idt_set_gate : ℕ → ℕ → ℕ → ℕ → Idt → Idt
idt_set_gate num base selector flags t = record t {
  idt = λ i.
      if i == num
      then (record {
        base_low = bit_and base 0xFFFF;
        selector = selector;
        always_zero = 0;
        flags = flags;
        base_high = bit_and (base >>> 16) 0xFFFF;
      })
      else t.idt i;
}
